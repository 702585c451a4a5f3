-- ===== src/Domain/Input/Consistent.antt =====
-- `RuntimeConfigInput.Validate` of core/internal/domain/revision_snapshot.go and the input as a whole.
use dav_deck.Common.{
  ◌≡◌, refl, subst, Bool, true, false, not, ◌&&◌, List, [], ◌∷◌, map, all, any, Option, some, none,
  Result, ok, err, ◌>>◌, reject, wrap, arith,
}
use dav_deck.Common.Text.{Text, CaseTables, text_eq}
use dav_deck.Common.Text.Laws.{text_eq_iff, text_eq_refl}
use dav_deck.Domain.Id.{EntityId}
use dav_deck.Domain.User.{User, validate_user}
use dav_deck.Domain.Settings.{validate_server_settings}
use dav_deck.Domain.Share.{SharePermission, validate_share, validate_share_permission}
use dav_deck.Domain.Tls.{TlsProfile, TlsChallenge, dns}
use dav_deck.Domain.Dns.{DnsProviderCredential, seen_in, validate_dns_provider_credential}
use dav_deck.Domain.Input.{
  ShareWithPermissions, RuntimeConfigInput, InputError, validate_providers, validate_users,
  validate_permissions, validate_shares, validate_profile, validate_reference, reference,
  validate_input, user, dns_provider, permission, share, settings, duplicate_user_id,
  duplicate_username, duplicate_provider_id, duplicate_provider_name, duplicate_share_id,
  duplicate_share_slug, different_share, unknown_user, duplicate_permission,
}

-- No two of the texts are equal.
abbrev pub are_distinct : List Text → Bool
are_distinct [] = true
are_distinct (x ∷ xs) = not (any (text_eq x) xs) && are_distinct xs

-- The permissions of a share belong to it, are for known users, and each for another one.
abbrev pub has_consistent_permissions : List EntityId → ShareWithPermissions → Bool
has_consistent_permissions users item =
    all (λ p. text_eq p.share_id item.share.id && seen_in p.user_id users) item.permissions
    && are_distinct (map (λ p. p.user_id) item.permissions)

-- The profile with the DNS challenge names a provider of the list.
abbrev pub names_provider : TlsChallenge → Option EntityId → List EntityId → Bool
names_provider dns none ids = false
names_provider dns (some id) ids = seen_in id ids
names_provider _ id ids = true

abbrev pub has_its_provider : List EntityId → Option TlsProfile → Bool
has_its_provider ids none = true
has_its_provider ids (some profile) = names_provider profile.challenge profile.dns_provider_id ids

pub record IsConsistent (input : RuntimeConfigInput) : Type 0 where
  pub user_ids : are_distinct (map (λ u. u.id) input.users) ≡ true
  pub usernames : are_distinct (map (λ u. u.username_normalized) input.users) ≡ true
  pub share_ids : are_distinct (map (λ s. s.share.id) input.shares) ≡ true
  pub share_slugs : are_distinct (map (λ s. s.share.slug) input.shares) ≡ true
  pub provider_ids : are_distinct (map (λ p. p.id) input.dns_provider_credentials) ≡ true
  pub provider_names : are_distinct (map (λ p. p.name) input.dns_provider_credentials) ≡ true
  pub permissions :
      all (has_consistent_permissions (map (λ u. u.id) input.users)) input.shares ≡ true
  pub provider :
      has_its_provider (map (λ p. p.id) input.dns_provider_credentials) input.tls_profile ≡ true

-- The loops look a key up among those before it.
abbrev are_new : List Text → List Text → Bool
are_new seen [] = true
are_new seen (x ∷ xs) = not (seen_in x seen) && are_new (x ∷ seen) xs

seen-eq :
    (x y : Text) (seen : List Text)
    → text_eq y x ≡ true
    → seen_in y seen ≡ true
    → seen_in x seen ≡ true
seen-eq x y seen same h = subst (λ z. seen_in z seen ≡ true) ((text_eq_iff y x).0 same) h

never_again :
    (seen xs : List Text) (y : Text)
    → seen_in y seen ≡ true
    → are_new seen xs ≡ true
    → any (text_eq y) xs ≡ false
never_again seen [] y h k = refl
never_again seen (x ∷ xs) y h k = ground (arith, never_again (x ∷ seen) xs y, seen-eq x y seen)

are_distinct_of_are_new : (seen xs : List Text) → are_new seen xs ≡ true → are_distinct xs ≡ true
are_distinct_of_are_new seen [] h = refl
are_distinct_of_are_new seen (x ∷ xs) h =
    ground
      (arith, are_distinct_of_are_new (x ∷ seen) xs, never_again (x ∷ seen) xs x, text_eq_refl x)

cons_new :
    (seen : List Text) (x : Text) (xs : List Text)
    → seen_in x seen ≡ false
    → are_new (x ∷ seen) xs ≡ true
    → are_new seen (x ∷ xs) ≡ true
cons_new seen x xs h k = rw (h, k) refl

rejected : {E : Type 0} (b : Bool) (e : E) (u : Unit {0}) → reject b e ≡ ok u → b ≡ false
rejected false e u h = refl
rejected true e u h = cc

accepted : {E : Type 0} (b : Bool) (e : E) (u : Unit {0}) → reject (not b) e ≡ ok u → b ≡ true
accepted true e u h = refl
accepted false e u h = cc

all_cons : (a b rest : Bool) → a ≡ true → b ≡ true → rest ≡ true → ((a && b) && rest) ≡ true
all_cons a b rest h k l = ground arith

module _ ⦃tables : CaseTables⦄ where
  both : (m n : Result InputError (Unit {0})) → (m >> n) ≡ ok tt → (m ≡ ok tt) × (n ≡ ok tt)
  both (ok _) n h = (refl, h)
  both (err e) n h = cc

  new_users :
      (ids names : List Text) (users : List User)
      → validate_users ids names users ≡ ok tt
      → (are_new ids (map (λ u. u.id) users) ≡ true)
        × (are_new names (map (λ u. u.username_normalized) users) ≡ true)
  unfolding validate_users
  new_users ids names [] h = (refl, refl)
  new_users ids names (u ∷ users) h =
      let n3 = validate_users (u.id ∷ ids) (u.username_normalized ∷ names) users in
      let n2 =
        reject (seen_in u.username_normalized names) (duplicate_username u.username_normalized)
        >> n3 in
      let n1 = reject (seen_in u.id ids) (duplicate_user_id u.id) >> n2 in
      let (_, h1) = both (wrap (user u.id) (validate_user u)) n1 h in
      let (new_id, h2) = both (reject (seen_in u.id ids) (duplicate_user_id u.id)) n2 h1 in
      let (new_name, rest) =
        both
          (reject (seen_in u.username_normalized names) (duplicate_username u.username_normalized))
          n3 h2 in
      let (rest_ids, rest_names) =
        new_users (u.id ∷ ids) (u.username_normalized ∷ names) users rest in
      (
        cons_new _ _ _ (rejected _ _ _ new_id) rest_ids,
        cons_new _ _ _ (rejected _ _ _ new_name) rest_names,
      )

  new_providers :
      (ids names : List Text) (providers : List DnsProviderCredential)
      → validate_providers ids names providers ≡ ok tt
      → (are_new ids (map (λ p. p.id) providers) ≡ true)
        × (are_new names (map (λ p. p.name) providers) ≡ true)
  unfolding validate_providers
  new_providers ids names [] h = (refl, refl)
  new_providers ids names (p ∷ providers) h =
      let n3 = validate_providers (p.id ∷ ids) (p.name ∷ names) providers in
      let n2 = reject (seen_in p.name names) (duplicate_provider_name p.name) >> n3 in
      let n1 = reject (seen_in p.id ids) (duplicate_provider_id p.id) >> n2 in
      let (_, h1) = both (wrap (dns_provider p.id) (validate_dns_provider_credential p)) n1 h in
      let (new_id, h2) = both (reject (seen_in p.id ids) (duplicate_provider_id p.id)) n2 h1 in
      let (new_name, rest) =
        both (reject (seen_in p.name names) (duplicate_provider_name p.name)) n3 h2 in
      let (rest_ids, rest_names) = new_providers (p.id ∷ ids) (p.name ∷ names) providers rest in
      (
        cons_new _ _ _ (rejected _ _ _ new_id) rest_ids,
        cons_new _ _ _ (rejected _ _ _ new_name) rest_names,
      )

  new_permissions :
      (users : List EntityId) (share_id : EntityId) (seen : List Text) (rows : List SharePermission)
      → validate_permissions users share_id seen rows ≡ ok tt
      → (are_new seen (map (λ p. p.user_id) rows) ≡ true)
        × (all (λ p. text_eq p.share_id share_id && seen_in p.user_id users) rows ≡ true)
  unfolding validate_permissions
  new_permissions users share_id seen [] h = (refl, refl)
  new_permissions users share_id seen (p ∷ rows) h =
      let n4 = validate_permissions users share_id (p.user_id ∷ seen) rows in
      let n3 = reject (seen_in p.user_id seen) (duplicate_permission p.user_id) >> n4 in
      let n2 = reject (not (seen_in p.user_id users)) (unknown_user p.user_id) >> n3 in
      let n1 = reject (not (text_eq p.share_id share_id)) different_share >> n2 in
      let (_, h1) = both (wrap (permission share_id) (validate_share_permission p)) n1 h in
      let (own, h2) = both (reject (not (text_eq p.share_id share_id)) different_share) n2 h1 in
      let (known, h3) =
        both (reject (not (seen_in p.user_id users)) (unknown_user p.user_id)) n3 h2 in
      let (new_user, rest) =
        both (reject (seen_in p.user_id seen) (duplicate_permission p.user_id)) n4 h3 in
      let (rest_users, rest_rows) = new_permissions users share_id (p.user_id ∷ seen) rows rest in
      (
        cons_new _ _ _ (rejected _ _ _ new_user) rest_users,
        all_cons _ _ _ (accepted _ _ _ own) (accepted _ _ _ known) rest_rows,
      )

  new_shares :
      (users ids slugs : List Text) (shares : List ShareWithPermissions)
      → validate_shares users ids slugs shares ≡ ok tt
      → (are_new ids (map (λ s. s.share.id) shares) ≡ true)
        × (are_new slugs (map (λ s. s.share.slug) shares) ≡ true)
        × (all (has_consistent_permissions users) shares ≡ true)
  unfolding validate_shares
  new_shares users ids slugs [] h = (refl, refl, refl)
  new_shares users ids slugs (item ∷ shares) h =
      let n4 = validate_shares users (item.share.id ∷ ids) (item.share.slug ∷ slugs) shares in
      let n3 = validate_permissions users item.share.id [] item.permissions >> n4 in
      let n2 =
        reject (seen_in item.share.slug slugs) (duplicate_share_slug item.share.slug) >> n3 in
      let n1 = reject (seen_in item.share.id ids) (duplicate_share_id item.share.id) >> n2 in
      let (_, h1) = both (wrap (share item.share.id) (validate_share item.share)) n1 h in
      let (new_id, h2) =
        both (reject (seen_in item.share.id ids) (duplicate_share_id item.share.id)) n2 h1 in
      let (new_slug, h3) =
        both (reject (seen_in item.share.slug slugs) (duplicate_share_slug item.share.slug)) n3
          h2 in
      let (permitted, rest) =
        both (validate_permissions users item.share.id [] item.permissions) n4 h3 in
      let (rest_ids, rest_slugs, rest_items) =
        new_shares users (item.share.id ∷ ids) (item.share.slug ∷ slugs) shares rest in
      let (distinct_users, own_rows) =
        new_permissions users item.share.id [] item.permissions permitted in
      (
        cons_new _ _ _ (rejected _ _ _ new_id) rest_ids,
        cons_new _ _ _ (rejected _ _ _ new_slug) rest_slugs,
        all_cons _ _ _ own_rows (are_distinct_of_are_new _ _ distinct_users) rest_items,
      )

  names_its_provider :
      (challenge : TlsChallenge) (id : Option EntityId) (ids : List EntityId)
      → reference challenge id ids ≡ ok tt
      → names_provider challenge id ids ≡ true
  unfolding reference
  names_its_provider dns none ids h = cc
  names_its_provider dns (some id) ids h = accepted _ _ _ h
  names_its_provider TlsChallenge.empty id ids h = refl
  names_its_provider TlsChallenge.auto id ids h = refl
  names_its_provider (TlsChallenge.other x) id ids h = refl

  referenced :
      (profile : Option TlsProfile) (providers : List DnsProviderCredential)
      → validate_reference profile providers ≡ ok tt
      → has_its_provider (map (λ p. p.id) providers) profile ≡ true
  unfolding validate_reference
  referenced none providers h = refl
  referenced (some profile) providers h =
      names_its_provider profile.challenge profile.dns_provider_id _ h

  -- An input that `Validate` accepts is consistent: the ids and the normalized names of its users, the
  -- ids and slugs of its shares and the ids and names of its DNS providers are distinct; every
  -- permission belongs to the share that it is listed under, is for a user of the input, and is the only
  -- one of that user there; and a profile with the challenge "dns" names a provider of the input.
  pub validate_input-IsConsistent :
      (input : RuntimeConfigInput) → validate_input input ≡ ok tt → IsConsistent input
  unfolding validate_input
  validate_input-IsConsistent input h =
      let n5 = validate_shares (map (λ u. u.id) input.users) [] [] input.shares in
      let n4 = validate_users [] [] input.users >> n5 in
      let n3 = validate_reference input.tls_profile input.dns_provider_credentials >> n4 in
      let n2 = validate_providers [] [] input.dns_provider_credentials >> n3 in
      let n1 = validate_profile input.tls_profile >> n2 in
      let (_, h1) = both (wrap settings (validate_server_settings input.server_settings)) n1 h in
      let (_, h2) = both (validate_profile input.tls_profile) n2 h1 in
      let (providers, h3) = both (validate_providers [] [] input.dns_provider_credentials) n3 h2 in
      let (provider, h4) =
        both (validate_reference input.tls_profile input.dns_provider_credentials) n4 h3 in
      let (users, shares) = both (validate_users [] [] input.users) n5 h4 in
      let (ids, names) = new_users [] [] input.users users in
      let (provider_ids, provider_names) =
        new_providers [] [] input.dns_provider_credentials providers in
      let (share_ids, slugs, permissions) =
        new_shares (map (λ u. u.id) input.users) [] [] input.shares shares in
      record {
        user_ids = are_distinct_of_are_new _ _ ids;
        usernames = are_distinct_of_are_new _ _ names;
        share_ids = are_distinct_of_are_new _ _ share_ids;
        share_slugs = are_distinct_of_are_new _ _ slugs;
        provider_ids = are_distinct_of_are_new _ _ provider_ids;
        provider_names = are_distinct_of_are_new _ _ provider_names;
        permissions = permissions;
        provider = referenced input.tls_profile input.dns_provider_credentials provider;
      }
