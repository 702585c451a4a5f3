-- ===== src/Domain/Snapshot.antt =====
-- core/internal/domain/revision_snapshot.go: the snapshot of the desired state that is stored with
-- a revision.
use dav_deck.Common.{ℕ, Bool, not, List, Option, map, ◌==◌, if◌then◌else◌, Result, ◌>>◌, reject}
use dav_deck.Common.Text.{Text, CaseTables, text_eq, text_lt}
use dav_deck.Common.Sorting.{sort_slice}
use dav_deck.Domain.Id.{EntityId}
use dav_deck.Domain.Timestamp.{Timestamp}
use dav_deck.Domain.User.{User}
use dav_deck.Domain.Share.{Share, SharePermission}
use dav_deck.Domain.Settings.{ServerSettings}
use dav_deck.Domain.Tls.{TlsProfile}
use dav_deck.Domain.Dns.{DnsProviderCredential}
use dav_deck.Domain.Input.{
  ShareWithPermissions, RuntimeConfigInput, InputError, unsupported_version, validate_input,
}

abbrev pub snapshot_version : ℕ
snapshot_version = 1

pub record SnapshotUser : Type 0 where
  pub id : EntityId
  pub username : Text
  pub username_normalized : Text
  pub password_hash : Text
  pub enabled : Bool
  pub created_at : Timestamp
  pub updated_at : Timestamp

pub record SnapshotShare : Type 0 where
  pub share : Share
  pub permissions : List SharePermission

pub record ConfigRevisionSnapshot : Type 0 where
  pub version : ℕ
  pub server_settings : ServerSettings
  pub tls_profile : Option TlsProfile
  pub dns_providers : List DnsProviderCredential
  pub users : List SnapshotUser
  pub shares : List SnapshotShare

-- The comparisons that `sort.Slice` is called with: by the first key, then by the id.
abbrev pub by_keys : Text → Text → Text → Text → Bool
by_keys key_a id_a key_b id_b =
    if text_eq key_a key_b then text_lt id_a id_b else text_lt key_a key_b

abbrev pub permission_less : SharePermission → SharePermission → Bool
permission_less a b = text_lt a.user_id b.user_id

abbrev pub user_less : SnapshotUser → SnapshotUser → Bool
user_less a b = by_keys a.username_normalized a.id b.username_normalized b.id

abbrev pub share_less : SnapshotShare → SnapshotShare → Bool
share_less a b = by_keys a.share.slug a.share.id b.share.slug b.share.id

abbrev pub provider_less : DnsProviderCredential → DnsProviderCredential → Bool
provider_less a b = by_keys a.name a.id b.name b.id

unfoldable pub snapshot_user : User → SnapshotUser
snapshot_user u = record {
  id = u.id;
  username = u.username;
  username_normalized = u.username_normalized;
  password_hash = u.password_hash;
  enabled = u.enabled;
  created_at = u.created_at;
  updated_at = u.updated_at;
}

unfoldable pub snapshot_share : ShareWithPermissions → SnapshotShare
unfolding sort_slice text_lt
snapshot_share item = record {
  share = item.share;
  permissions = sort_slice permission_less item.permissions;
}

-- The zones are sorted in the copy.
unfoldable pub snapshot_provider : DnsProviderCredential → DnsProviderCredential
unfolding sort_slice text_lt
snapshot_provider p = record p { allowed_zones = sort_slice text_lt p.allowed_zones }

unfoldable pub new_snapshot : RuntimeConfigInput → ConfigRevisionSnapshot
unfolding snapshot_user snapshot_share snapshot_provider sort_slice text_eq text_lt
new_snapshot input = record {
  version = snapshot_version;
  server_settings = input.server_settings;
  tls_profile = input.tls_profile;
  dns_providers = sort_slice provider_less (map snapshot_provider input.dns_provider_credentials);
  users = sort_slice user_less (map snapshot_user input.users);
  shares = sort_slice share_less (map snapshot_share input.shares);
}

unfoldable pub input_user : SnapshotUser → User
input_user u = record {
  id = u.id;
  username = u.username;
  username_normalized = u.username_normalized;
  password_hash = u.password_hash;
  enabled = u.enabled;
  created_at = u.created_at;
  updated_at = u.updated_at;
}

unfoldable pub input_share : SnapshotShare → ShareWithPermissions
input_share item = record { share = item.share; permissions = item.permissions }

-- `ConfigRevisionSnapshot.RuntimeConfigInput`
unfoldable pub snapshot_input : ConfigRevisionSnapshot → RuntimeConfigInput
unfolding input_user input_share
snapshot_input s = record {
  server_settings = s.server_settings;
  tls_profile = s.tls_profile;
  dns_provider_credentials = s.dns_providers;
  users = map input_user s.users;
  shares = map input_share s.shares;
}

module _ ⦃tables : CaseTables⦄ where
  -- `ConfigRevisionSnapshot.Validate`
  unfoldable pub validate_snapshot : ConfigRevisionSnapshot → Result InputError (Unit {0})
  validate_snapshot s = do
    reject (not (s.version == snapshot_version)) (unsupported_version s.version)
    validate_input (snapshot_input s)
