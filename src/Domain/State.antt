-- ===== src/Domain/State.antt =====
-- core/internal/domain/revision_snapshot.go: the identity of a desired state, which leaves times and
-- NONE permissions out, and the functions that go through the JSON texts. The texts themselves are
-- the standard library's; they are the fields of `Codec`.
pub mod Identity
use dav_deck.Common.{
  ℕ, Bool, true, false, List, [], ◌∷◌, Option, none, some, map, if◌then◌else◌, Result, ok, err,
  ◌>>◌, ◌>>=◌, reject, wrap,
}
use mathlib.Core.Option
use dav_deck.Common.Text.{Text, CaseTables, is_empty}
use dav_deck.Domain.Id.{EntityId}
use dav_deck.Domain.Share.{SharePermission, Permission}
use dav_deck.Domain.Settings.{ServerSettings, RuntimeMode}
use dav_deck.Domain.Tls.{TlsProfile, TlsMode, TlsChallenge, default_challenge}
use dav_deck.Domain.Dns.{DnsProviderCredential, DnsProviderType}
use dav_deck.Domain.Revision.{Bytes, Digest}
use dav_deck.Domain.Input.{RuntimeConfigInput, InputError}
use dav_deck.Domain.Snapshot.{
  ConfigRevisionSnapshot, SnapshotUser, SnapshotShare, new_snapshot, snapshot_input,
  validate_snapshot,
}

-- The identity of a state: the snapshot without its times and without NONE permissions.
pub record StateSettings : Type 0 where
  pub id : EntityId
  pub public_base_path : Text
  pub http_port : ℕ
  pub https_port : ℕ
  pub runtime_mode : RuntimeMode

pub record StateTlsProfile : Type 0 where
  pub id : EntityId
  pub mode : TlsMode
  pub hostname : Text
  pub challenge : TlsChallenge
  pub dns_provider_id : Option EntityId
  pub certificate_path : Text
  pub private_key_path : Text

pub record StateDnsProvider : Type 0 where
  pub id : EntityId
  pub name : Text
  pub provider : DnsProviderType
  pub allowed_zones : List Text

pub record StateUser : Type 0 where
  pub id : EntityId
  pub username : Text
  pub username_normalized : Text
  pub password_hash : Text
  pub enabled : Bool

pub record StatePermission : Type 0 where
  pub share_id : EntityId
  pub user_id : EntityId
  pub permission : Permission

pub record StateShare : Type 0 where
  pub id : EntityId
  pub name : Text
  pub slug : Text
  pub path : Text
  pub enabled : Bool
  pub permissions : List StatePermission

pub record StateIdentity : Type 0 where
  pub version : ℕ
  pub server_settings : StateSettings
  pub tls_profile : Option StateTlsProfile
  pub dns_providers : List StateDnsProvider
  pub users : List StateUser
  pub shares : List StateShare

abbrev pub state_settings : ServerSettings → StateSettings
state_settings s = record {
  id = s.id;
  public_base_path = s.public_base_path;
  http_port = s.http_port;
  https_port = s.https_port;
  runtime_mode = s.runtime_mode;
}

abbrev pub state_tls_profile : TlsProfile → StateTlsProfile
state_tls_profile p = record {
  id = p.id;
  mode = p.mode;
  hostname = p.hostname;
  challenge = default_challenge p.challenge;
  dns_provider_id = p.dns_provider_id;
  certificate_path = p.certificate_path;
  private_key_path = p.private_key_path;
}

abbrev pub state_dns_provider : DnsProviderCredential → StateDnsProvider
state_dns_provider p = record {
  id = p.id;
  name = p.name;
  provider = p.provider;
  allowed_zones = p.allowed_zones;
}

abbrev pub state_user : SnapshotUser → StateUser
state_user u = record {
  id = u.id;
  username = u.username;
  username_normalized = u.username_normalized;
  password_hash = u.password_hash;
  enabled = u.enabled;
}

abbrev pub state_permission : SharePermission → StatePermission
state_permission p = record {
  share_id = p.share_id;
  user_id = p.user_id;
  permission = p.permission;
}

abbrev pub is_none : Permission → Bool
is_none Permission.none = true
is_none _ = false

-- The loop over the permissions of a share; a NONE row is passed over.
unfoldable pub state_permissions : List SharePermission → List StatePermission
state_permissions [] = []
state_permissions (p ∷ rest) =
    let kept = state_permissions rest in
    if is_none p.permission then kept else state_permission p ∷ kept

unfoldable pub state_share : SnapshotShare → StateShare
unfolding state_permissions
state_share item = record {
  id = item.share.id;
  name = item.share.name;
  slug = item.share.slug;
  path = item.share.path;
  enabled = item.share.enabled;
  permissions = state_permissions item.permissions;
}

unfoldable pub state_identity : ConfigRevisionSnapshot → StateIdentity
unfolding state_share
state_identity s = record {
  version = s.version;
  server_settings = state_settings s.server_settings;
  tls_profile = Option.map state_tls_profile s.tls_profile;
  dns_providers = map state_dns_provider s.dns_providers;
  users = map state_user s.users;
  shares = map state_share s.shares;
}

-- `json.Marshal` and `json.Unmarshal` at the two types that are stored. `none` is a decoding error.
pub record Codec : Type 0 where
  pub marshal_snapshot : ConfigRevisionSnapshot → Bytes
  pub unmarshal_snapshot : Bytes → Option ConfigRevisionSnapshot
  pub marshal_identity : StateIdentity → Bytes

pub data SnapshotError : Type 0 where
  missing undecodable : SnapshotError
  rejected : InputError → SnapshotError

module _ ⦃tables : CaseTables⦄ ⦃digest : Digest⦄ ⦃codec : Codec⦄ where
  -- `MarshalConfigRevisionSnapshot`
  unfoldable pub marshal_revision_snapshot : RuntimeConfigInput → Result InputError Bytes
  marshal_revision_snapshot input = do
    let snapshot = new_snapshot input
    validate_snapshot snapshot
    ok (codec.marshal_snapshot snapshot)

  -- `HashConfigRevisionState`
  unfoldable pub hash_revision_state : RuntimeConfigInput → Result InputError Text
  hash_revision_state input = do
    let snapshot = new_snapshot input
    validate_snapshot snapshot
    ok (digest.sha256 (codec.marshal_identity (state_identity snapshot)))

  decode : Option ConfigRevisionSnapshot → Result SnapshotError RuntimeConfigInput
  decode none = err undecodable
  decode (some snapshot) = do
    wrap rejected (validate_snapshot snapshot)
    ok (snapshot_input snapshot)

  -- `ParseConfigRevisionSnapshot`
  unfoldable pub parse_revision_snapshot : Bytes → Result SnapshotError RuntimeConfigInput
  unfolding decode
  parse_revision_snapshot body = do
    reject (is_empty body) missing
    decode (codec.unmarshal_snapshot body)

  -- `HashConfigRevisionStateSnapshot`
  unfoldable pub hash_revision_state_snapshot : Bytes → Result SnapshotError Text
  hash_revision_state_snapshot body = do
    input ← parse_revision_snapshot body
    wrap rejected (hash_revision_state input)
