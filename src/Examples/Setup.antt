-- ===== src/Examples/Setup.antt =====
-- Concrete data: a database with one settings row, collaborators whose runtime always runs, and
-- stand-ins for the case tables, the digest and the codec.
use dav_deck.Common.{
  ℕ, ◌+◌, ◌-◌, true, false, ◌&&◌, leb, [], ◌∷◌, some, none, ok, err, if◌then◌else◌,
}
use dav_deck.Common.Text.{Text, CaseTables, codes}
use dav_deck.Domain.Id.{EntityId}
use dav_deck.Domain.Timestamp.{Timestamp}
use dav_deck.Domain.Settings.{ServerSettings, RuntimeMode}
use dav_deck.Domain.Revision.{ConfigRevision, Digest, valid, not_applied}
use dav_deck.Domain.State.{Codec}
use dav_deck.Domain.User.{User}
use dav_deck.Domain.Share.{Share, SharePermission, Permission}
use dav_deck.Domain.Input.{RuntimeConfigInput}
use dav_deck.App.Errors.{RuntimeErrorCode, runtime_error}
use dav_deck.Domain.Snapshot.{ConfigRevisionSnapshot}
use dav_deck.Storage.Database.{Database, Store}
use dav_deck.App.World.{World, Collaborators, running}

-- Lower case of the ASCII letters.
abbrev ascii_lower : ℕ → ℕ
ascii_lower c = if leb b'A' c && leb c b'Z' then c + 32 else c

-- Upper case of the ASCII letters.
abbrev ascii_upper : ℕ → ℕ
ascii_upper c = if leb b'a' c && leb c b'z' then c - 32 else c

abbrev pub ascii_tables : CaseTables
ascii_tables = record { lower = ascii_lower; upper = ascii_upper }

abbrev pub sixty_four_zeros : Text
sixty_four_zeros = codes "0000000000000000000000000000000000000000000000000000000000000000"

abbrev pub constant_digest : Digest
constant_digest = record { json_valid = λ body. true; sha256 = λ body. sixty_four_zeros }

abbrev pub day : Timestamp
day = record { instant = 5; utc = true }

abbrev pub first_id : EntityId
first_id = codes "00000000-0000-4000-8000-000000000001"

abbrev pub second_id : EntityId
second_id = codes "00000000-0000-4000-8000-000000000002"

abbrev pub sample_settings : ServerSettings
sample_settings = record {
  id = first_id;
  public_base_path = codes "/dav";
  http_port = 8080;
  https_port = 8443;
  runtime_mode = RuntimeMode.portable;
  created_at = day;
  updated_at = day;
}

abbrev pub sample_snapshot : ConfigRevisionSnapshot
sample_snapshot = record {
  version = 1;
  server_settings = sample_settings;
  tls_profile = none;
  dns_providers = [];
  users = [];
  shares = [];
}

abbrev pub constant_codec : Codec
constant_codec = record {
  marshal_snapshot = λ s. codes "{}";
  unmarshal_snapshot = λ body. some sample_snapshot;
  marshal_identity = λ s. codes "{}";
}

abbrev pub sample_revision : ConfigRevision
sample_revision = record {
  id = first_id;
  number = 1;
  created_at = day;
  config_json = codes "{}";
  state_snapshot_json = codes "{}";
  config_hash = sixty_four_zeros;
  state_hash = sixty_four_zeros;
  validation_status = valid;
  apply_status = not_applied;
  app_version = codes "1";
  error_code = [];
  error_summary = [];
}

abbrev pub sample_database : Database
sample_database = record {
  tables = record {
    server_settings = sample_settings ∷ [];
    tls_profiles = [];
    dns_provider_credentials = [];
    users = [];
    shares = [];
    share_permissions = [];
  };
  config_revisions = sample_revision ∷ [];
  next_number = 2;
  runtime_state = record {
    desired_revision_id = some first_id;
    active_revision_id = none;
    dirty = true;
    updated_at = day;
  };
}

abbrev pub sample_store : Store
sample_store = record { db = sample_database; faults = [] }

abbrev pub sample_world : World (Unit {0})
sample_world = record { store = sample_store; runtime = tt; locked = false }

-- The runtime accepts every call and says that it runs.
abbrev pub willing : Collaborators (Unit {0})
willing = record {
  compile = λ input. some (record { json = codes "{}"; sha256 = sixty_four_zeros; warnings = [] });
  validate = λ body r. (ok tt, r);
  validate_with_environment = none;
  start = λ body r. (ok tt, r);
  start_with_environment = none;
  reload = λ body r. (ok tt, r);
  stop = λ r. (ok tt, r);
  status = λ r. (running, r);
  environment_matches = none;
  current_environment = none;
  environment = none;
  now = λ r. (day, r);
  new_id = λ r. (ok second_id, r);
}

-- The runtime that refuses every configuration.
abbrev pub unwilling : Collaborators (Unit {0})
unwilling = record willing {
  reload = λ body r. (err (runtime_error RuntimeErrorCode.reload_failed (codes "no")), r);
}

-- The sample database once the revision is applied.
abbrev pub applied_database : Database
applied_database = record sample_database {
  runtime_state = record {
    desired_revision_id = some first_id;
    active_revision_id = some first_id;
    dirty = false;
    updated_at = day;
  };
}

abbrev pub second_revision : ConfigRevision
second_revision = record sample_revision { id = second_id; number = 2 }

-- Two revisions, the second of which is neither active nor desired.
abbrev pub two_revisions : Store
two_revisions = record {
  db = record applied_database {
    config_revisions = second_revision ∷ sample_revision ∷ [];
    next_number = 3;
  };
  faults = [];
}

abbrev pub sample_user : User
sample_user = record {
  id = first_id;
  username = codes "ann";
  username_normalized = codes "ann";
  password_hash = codes "$2a$10$abcdefghijklmnopqrstuv";
  enabled = true;
  created_at = day;
  updated_at = day;
}

abbrev pub sample_permission : SharePermission
sample_permission = record {
  share_id = second_id;
  user_id = first_id;
  permission = Permission.read_write;
  created_at = day;
  updated_at = day;
}

abbrev pub sample_share : Share
sample_share = record {
  id = second_id;
  name = codes "docs";
  slug = codes "my-docs";
  path = codes "/srv/docs";
  enabled = true;
  created_at = day;
  updated_at = day;
}

-- One user with a permission of one share.
abbrev pub sample_input : RuntimeConfigInput
sample_input = record {
  server_settings = sample_settings;
  tls_profile = none;
  dns_provider_credentials = [];
  users = sample_user ∷ [];
  shares = record { share = sample_share; permissions = sample_permission ∷ [] } ∷ [];
}

abbrev pub snapshot_with_none : ConfigRevisionSnapshot
snapshot_with_none = record sample_snapshot {
  shares =
      record {
        share = sample_share;
        permissions =
            sample_permission ∷ record sample_permission { permission = Permission.none } ∷ [];
      }
      ∷ [];
}
