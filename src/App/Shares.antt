-- ===== src/App/Shares.antt =====
-- core/internal/app/share_service.go, over the repository of core/internal/storage/share_repository.go.
use dav_deck.Common.{Bool, true, false, ◌&&◌, List, Option, none, some, Result, wrap, if◌then◌else◌}
use dav_deck.Common.Text.{Text, CaseTables, text_eq}
use dav_deck.Common.Exec.{Exec, pure, lift, map_error, ◌>>=◌, ◌>>◌}
use dav_deck.Domain.Validation.{
  ValidationError, invalid_share_name, invalid_share_slug, invalid_share_path,
}
use dav_deck.Domain.Validation
use dav_deck.Domain.Id.{EntityId}
use dav_deck.Domain.Timestamp.{Timestamp}
use dav_deck.Domain.Share.{Share, validate_share}
use dav_deck.App.Errors.{ErrorCode, Error, failure, database_error, literal}
use dav_deck.App.World.{World, on_runtime}
use dav_deck.App.Sources.{Sources, map_share_error, map_path_error, call, call_at, outside, stamp}
use dav_deck.App.Users.{equal}
use dav_deck.Storage.Shares

-- `ShareUpdate`
pub record ShareUpdate : Type 0 where
  pub name : Option Text
  pub slug : Option Text
  pub path : Option Text
  pub enabled : Option Bool

share_error : Validation.ErrorCode → Error
unfolding literal
share_error invalid_share_name = failure ErrorCode.invalid_share_name "Share name is invalid"
share_error invalid_share_slug = failure ErrorCode.invalid_share_slug "Share slug is invalid"
share_error invalid_share_path = failure ErrorCode.invalid_share_path "Share path is invalid"
share_error _ = failure ErrorCode.invalid_share_path "Share is invalid"

-- `validateShare`
unfoldable pub check_share : ⦃tables : CaseTables⦄ → Share → Result Error (Unit {0})
unfolding share_error
check_share share = wrap (λ e. share_error e.code) (validate_share share)

abbrev pub or_else : {A : Type 0} → Option A → A → A
or_else none a = a
or_else (some b) a = b

-- The four assignments of `Update`.
abbrev pub updated_share : ShareUpdate → Share → Share
updated_share change share = record share {
  name = or_else change.name share.name;
  slug = or_else change.slug share.slug;
  path = or_else change.path share.path;
  enabled = or_else change.enabled share.enabled;
}

-- `share == current`, of shares whose ids and times are the same.
unfoldable pub same_share : Share → Share → Bool
unfolding text_eq
same_share a b =
    text_eq a.name b.name
    && (text_eq a.slug b.slug && (text_eq a.path b.path && equal a.enabled b.enabled))

abbrev pub new_share : EntityId → Text → Text → Text → Timestamp → Share
new_share id name slug path created = record {
  id = id;
  name = name;
  slug = slug;
  path = path;
  enabled = true;
  created_at = created;
  updated_at = created;
}

module _ ⦃tables : CaseTables⦄ {R : Type 0} (sources : Sources R) where
  -- `List`
  unfoldable pub list : Exec (World R) Error (List Share)
  unfolding call
  list = call (λ _. database_error) Shares.list

  -- `Get`
  unfoldable pub get : EntityId → Exec (World R) Error Share
  unfolding call map_share_error
  get id = call map_share_error (Shares.get id)

  -- `s.paths.ValidateSharePath`
  unfoldable pub check_path : Text → Exec (World R) Error (Unit {0})
  unfolding map_error on_runtime map_path_error
  check_path path = map_error map_path_error (on_runtime (sources.validate_share_path path))

  -- `Create`
  unfoldable pub create : Text → Text → Text → Exec (World R) Error Share
  unfolding outside stamp check_share check_path call_at lift pure map_share_error ◌>>=◌
  create name slug path = do
    id ← outside database_error sources.new_id
    created ← stamp sources
    lift (check_share (new_share id name slug path created))
    check_path path
    call_at sources map_share_error (λ now. Shares.create now (new_share id name slug path created))
    pure (new_share id name slug path created)

  unfoldable pub check_new_path : Option Text → Exec (World R) Error (Unit {0})
  unfolding check_path pure
  check_new_path none = pure tt
  check_new_path (some path) = check_path path

  unfoldable pub write_share : Share → Exec (World R) Error (Share × Bool)
  unfolding stamp call_at map_share_error pure ◌>>=◌
  write_share share = do
    updated ← stamp sources
    call_at sources map_share_error
        (λ now. Shares.update now (record share { updated_at = updated }))
    pure (record share { updated_at = updated }, true)

  -- `Update`, which says whether there was a change.
  unfoldable pub update : EntityId → ShareUpdate → Exec (World R) Error (Share × Bool)
  unfolding get check_share check_new_path same_share write_share lift pure ◌>>=◌
  update id change = do
    current ← get id
    lift (check_share (updated_share change current))
    check_new_path change.path
    if same_share (updated_share change current) current
        then pure (current, false)
        else write_share (updated_share change current)

  -- `Delete`
  unfoldable pub delete : EntityId → Exec (World R) Error (Unit {0})
  unfolding call_at map_share_error
  delete id = call_at sources map_share_error (λ now. Shares.delete now id)
