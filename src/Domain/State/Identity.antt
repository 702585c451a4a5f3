-- ===== src/Domain/State/Identity.antt =====
-- The state identity of core/internal/domain/revision_snapshot.go, times and NONE permissions.
use dav_deck.Common.{
  ◌≡◌, refl, Bool-cases, inl, inr, List, [], ◌∷◌, map, Option, none, some, if◌then◌else◌,
}
use mathlib.Core.Option
use dav_deck.Domain.Timestamp.{Timestamp}
use dav_deck.Domain.Share.{SharePermission}
use dav_deck.Domain.Tls.{TlsProfile}
use dav_deck.Domain.Dns.{DnsProviderCredential}
use dav_deck.Domain.Snapshot.{ConfigRevisionSnapshot, SnapshotUser, SnapshotShare}
use dav_deck.Domain.State.{
  is_none, state_permissions, state_share, state_identity, state_user, state_dns_provider,
  state_tls_profile,
}

-- The snapshot with every creation time set to `c` and every update time to `u`, without the
-- permissions that are NONE.
module _ (c u : Timestamp) where
  abbrev drop_none : List SharePermission → List SharePermission
  drop_none [] = []
  drop_none (p ∷ rest) =
      let kept = drop_none rest in
      if is_none p.permission then kept else record p { created_at = c; updated_at = u } ∷ kept

  abbrev redated_share : SnapshotShare → SnapshotShare
  redated_share item = record {
    share = record item.share { created_at = c; updated_at = u };
    permissions = drop_none item.permissions;
  }

  abbrev redated_user : SnapshotUser → SnapshotUser
  redated_user x = record x { created_at = c; updated_at = u }

  abbrev redated_provider : DnsProviderCredential → DnsProviderCredential
  redated_provider p = record p { created_at = c; updated_at = u }

  abbrev redated_profile : TlsProfile → TlsProfile
  redated_profile p = record p { created_at = c; updated_at = u }

  abbrev pub redated : ConfigRevisionSnapshot → ConfigRevisionSnapshot
  redated s = record {
    version = s.version;
    server_settings = record s.server_settings { created_at = c; updated_at = u };
    tls_profile = Option.map redated_profile s.tls_profile;
    dns_providers = map redated_provider s.dns_providers;
    users = map redated_user s.users;
    shares = map redated_share s.shares;
  }

  same_permissions :
      (rows : List SharePermission) → state_permissions (drop_none rows) ≡ state_permissions rows
  unfolding state_permissions
  same_permissions [] = refl
  same_permissions (p ∷ rows) = elim (Bool-cases (is_none p.permission)) [
    | inl h ↦ rw (h, same_permissions rows) refl
    | inr h ↦ rw (h, h, same_permissions rows) refl
  ]

  same_share : (item : SnapshotShare) → state_share (redated_share item) ≡ state_share item
  unfolding state_share
  same_share item = rw (same_permissions item.permissions) refl

  same_shares :
      (items : List SnapshotShare)
      → map state_share (map redated_share items) ≡ map state_share items
  same_shares [] = refl
  same_shares (item ∷ items) = rw (same_share item, same_shares items) refl

  same_users :
      (users : List SnapshotUser) → map state_user (map redated_user users) ≡ map state_user users
  same_users [] = refl
  same_users (x ∷ users) = rw (same_users users) refl

  same_providers :
      (providers : List DnsProviderCredential)
      → map state_dns_provider (map redated_provider providers) ≡ map state_dns_provider providers
  same_providers [] = refl
  same_providers (p ∷ providers) = rw (same_providers providers) refl

  same_profile :
      (p : Option TlsProfile)
      → Option.map state_tls_profile (Option.map redated_profile p) ≡ Option.map state_tls_profile p
  same_profile none = refl
  same_profile (some p) = refl

  -- The identity of a state, of which its hash is taken, is the same whatever the creation and update
  -- times of its entities are, and with or without the permissions that are NONE.
  pub identity_ignores_times :
      (s : ConfigRevisionSnapshot) → state_identity (redated s) ≡ state_identity s
  unfolding state_identity
  identity_ignores_times s =
      rw
        (
          same_profile s.tls_profile,
          same_providers s.dns_providers,
          same_users s.users,
          same_shares s.shares,
        )
        refl
