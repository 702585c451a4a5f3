-- ===== src/Storage/Restore/Contents.antt =====
-- `RestoreState` of core/internal/storage/revision_repository.go and the tables of the desired state.
use dav_deck.Common.{◌≡◌, refl, ◌∙◌, sym, subst, ap, List, [], ◌∷◌, ◌++◌, map, Option, none, some}
use mathlib.Core.List.{append_assoc, append-nil}
use dav_deck.Common.Exec.{Exec}
use dav_deck.Domain.Tls.{TlsProfile}
use dav_deck.Domain.Dns.{DnsProviderCredential}
use dav_deck.Domain.User.{User}
use dav_deck.Domain.Share.{Share, SharePermission}
use dav_deck.Domain.Input.{ShareWithPermissions, RuntimeConfigInput}
use dav_deck.Storage.Database.{Database, Tables, Store, StoreError}
use dav_deck.Common.Exec.Keeps.{Keeps, Keeps-pure, Keeps-bind}
use dav_deck.Storage.Database.Atomic.{Keeps-write}
use dav_deck.Storage.Database.After.{After, After-bind, After-imp}
use dav_deck.Storage.Database.Symbolic.{From, From-pure, From-write}
use dav_deck.Storage.Restore.{
  with_tables, insert_users, insert_permissions, insert_shares, upsert_providers, insert_profile,
  replace_tables,
}

-- All permissions of all shares, in order.
abbrev pub all_permissions : List ShareWithPermissions → List SharePermission
all_permissions [] = []
all_permissions (item ∷ shares) = item.permissions ++ all_permissions shares

-- The users, shares, permissions and settings are those of the input, and no others.
pub record Holds (input : RuntimeConfigInput) (db : Database) : Type 0 where
  pub settings : db.tables.server_settings ≡ input.server_settings ∷ []
  pub users : db.tables.users ≡ input.users
  pub shares : db.tables.shares ≡ map (λ s. s.share) input.shares
  pub permissions : db.tables.share_permissions ≡ all_permissions input.shares

From-insert_users :
    (d : Database) (users : List User)
    → From d
        (insert_users users)
        (λ _ db. db ≡ with_tables (λ t. record t { users = t.users ++ users }) d)
unfolding insert_users
From-insert_users d [] =
    From-pure _ _ _
      (ap (λ x. with_tables (λ t. record t { users = x }) d) (sym (append-nil d.tables.users)))
From-insert_users d (u ∷ users) = From-write _ _ _ _ λ _.
    After-imp _ _ _ (From-insert_users _ users) λ _ db h.
      h
      ∙ ap (λ x. with_tables (λ t. record t { users = x }) d)
          (append_assoc d.tables.users (u ∷ []) users)

From-insert_permissions :
    (d : Database) (permissions : List SharePermission)
    → From d (insert_permissions permissions) (λ _ db.
      db ≡ with_tables (λ t. record t { share_permissions = t.share_permissions ++ permissions }) d)
unfolding insert_permissions
From-insert_permissions d [] = From-pure _ _ _ (
    ap (λ x. with_tables (λ t. record t { share_permissions = x }) d)
      (sym (append-nil d.tables.share_permissions)))
From-insert_permissions d (p ∷ permissions) = From-write _ _ _ _ λ _.
    After-imp _ _ _ (From-insert_permissions _ permissions) λ _ db h.
      h
      ∙ ap (λ x. with_tables (λ t. record t { share_permissions = x }) d)
          (append_assoc d.tables.share_permissions (p ∷ []) permissions)

-- The tables with the shares and their permissions added.
abbrev with_shares : List ShareWithPermissions → Database → Database
with_shares shares = with_tables (λ t. record t {
  shares = t.shares ++ map (λ s. s.share) shares;
  share_permissions = t.share_permissions ++ all_permissions shares;
})

with_both :
    (d : Database) (a a' : List Share) (b b' : List SharePermission)
    → a ≡ a'
    → b ≡ b'
    → with_tables (λ t. record t { shares = a; share_permissions = b }) d
      ≡ with_tables (λ t. record t { shares = a'; share_permissions = b' }) d
with_both d a a' b b' h k = rw (h, k) refl

From-insert_shares :
    (d : Database) (shares : List ShareWithPermissions)
    → From d (insert_shares shares) (λ _ db. db ≡ with_shares shares d)
unfolding insert_shares
From-insert_shares d [] = From-pure _ _ _ (
    with_both d _ _ _ _ (sym (append-nil d.tables.shares))
      (sym (append-nil d.tables.share_permissions)))
From-insert_shares d (item ∷ shares) = From-write _ _ _ _ λ _.
    After-bind _ _ _ _ (From-insert_permissions _ item.permissions) λ _.
      After-imp _ _ _ (From-insert_shares _ shares) λ _ db h.
        h
        ∙ with_both d _ _ _ _
            (append_assoc d.tables.shares (item.share ∷ []) (map (λ s. s.share) shares))
            (append_assoc d.tables.share_permissions item.permissions (all_permissions shares))

-- What the last two groups of inserts do not touch.
abbrev others : Database → Tables
others db = record db.tables { dns_provider_credentials = []; tls_profiles = [] }

Keeps-upsert_providers :
    (providers : List DnsProviderCredential) → Keeps (λ s. others s.db) (upsert_providers providers)
unfolding upsert_providers
Keeps-upsert_providers [] = Keeps-pure tt
Keeps-upsert_providers (p ∷ providers) =
    Keeps-bind _ _ (Keeps-write others _ λ db. refl) λ _. Keeps-upsert_providers providers

Keeps-insert_profile :
    (profile : Option TlsProfile) → Keeps (λ s. others s.db) (insert_profile profile)
unfolding insert_profile
Keeps-insert_profile none = Keeps-pure tt
Keeps-insert_profile (some p) = Keeps-write others _ λ db. refl

Holds-others :
    (input : RuntimeConfigInput) (d db : Database)
    → Holds input d
    → others db ≡ others d
    → Holds input db
Holds-others input d db h same = record {
  settings = ap (λ t. t.server_settings) same ∙ h.settings;
  users = ap (λ t. t.users) same ∙ h.users;
  shares = ap (λ t. t.shares) same ∙ h.shares;
  permissions = ap (λ t. t.share_permissions) same ∙ h.permissions;
}

After-others :
    (input : RuntimeConfigInput) (m : Exec Store StoreError (Unit {0}))
    → Keeps (λ s. others s.db) m
    → After (Holds input) m (λ _. Holds input)
After-others input m k = record { at_ok = λ s p a h. Holds-others input s.db _ p (k.at s) }

pub From-replace_tables :
    (d : Database) (input : RuntimeConfigInput) → From d (replace_tables input) (λ _. Holds input)
unfolding replace_tables
From-replace_tables d input = From-write _ _ _ _ λ _. From-write _ _ _ _ λ _.
    From-write _ _ _ _ λ _. From-write _ _ _ _ λ _. From-write _ _ _ _ λ _. From-write _ _ _ _ λ _.
      After-bind _ _ _ _ (From-insert_users _ input.users) λ _.
        After-bind _ _ (λ _. Holds input) _
          (After-imp _ _ _ (From-insert_shares _ input.shares) λ _ db h.
            subst (Holds input) (sym h)
              (record { settings = refl; users = refl; shares = refl; permissions = refl }))
          λ _.
            After-bind _ _ _ _
              (After-others input _ (Keeps-upsert_providers input.dns_provider_credentials))
              λ _. After-others input _ (Keeps-insert_profile input.tls_profile)
