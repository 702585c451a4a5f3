-- ===== src/App/Sources.antt =====
-- What the services of core/internal/app share: the clock, the generator of ids, the hash function,
-- the tests of paths and ports behind Go interfaces, and the mapping of repository errors.
use dav_deck.Common.{ℕ}
use dav_deck.Common.Text.{Text}
use dav_deck.Common.Exec.{Exec, lift, map_error, ◌>>=◌}
use dav_deck.Common.{wrap}
use dav_deck.Domain.Id.{EntityId}
use dav_deck.Domain.Timestamp.{Timestamp, new_timestamp}
use dav_deck.Storage.Database.{
  Store, StoreError, user_not_found, user_already_exists, share_not_found, share_already_exists,
  settings_not_found,
}
use dav_deck.App.Errors.{ErrorCode, Error, failure, database_error, literal}
use dav_deck.App.World.{World, on_store, on_runtime, ask}

-- What `ValidateSharePath` may find.
pub data PathFailure : Type 0 where
  path_not_found path_unreadable path_unwritable other_failure : PathFailure

-- `UserRepository` and the like are the repositories of core/internal/storage; the others are
-- parameters over a state `R` that is theirs. `trigger_time` is the clock of the database.
pub record Sources (R : Type 0) : Type 0 where
  pub now : R → Timestamp × R
  pub trigger_time : R → Timestamp × R
  pub new_id : Exec R (Unit {0}) EntityId
  pub hash : Text → Exec R (Unit {0}) Text
  pub validate_share_path : Text → Exec R PathFailure (Unit {0})
  pub check_port : ℕ → Exec R (Unit {0}) (Unit {0})

-- `mapUserRepositoryError`
unfoldable pub map_user_error : StoreError → Error
unfolding literal
map_user_error user_not_found = failure ErrorCode.user_not_found "User was not found"
map_user_error user_already_exists = failure ErrorCode.user_already_exists "Username already exists"
map_user_error _ = database_error

-- `mapShareError`, of a repository error and of a `PathFailure`.
unfoldable pub map_share_error : StoreError → Error
unfolding literal
map_share_error share_not_found = failure ErrorCode.share_not_found "Share was not found"
map_share_error share_already_exists =
    failure ErrorCode.share_already_exists "Share slug already exists"
map_share_error _ = database_error

unfoldable pub map_path_error : PathFailure → Error
unfolding literal
map_path_error path_not_found =
    failure ErrorCode.share_path_not_found "Share directory does not exist"
map_path_error path_unreadable =
    failure ErrorCode.share_path_unreadable "Share directory is not readable"
map_path_error path_unwritable =
    failure ErrorCode.share_path_unwritable "Share directory is not writable"
map_path_error other_failure = database_error

-- `mapServerSettingsError`
unfoldable pub map_settings_error : StoreError → Error
unfolding literal
map_settings_error settings_not_found =
    failure ErrorCode.server_settings_not_found "Server settings were not found"
map_settings_error _ = database_error

module _ {R : Type 0} where
  -- A call of a repository, with the mapping of its errors.
  unfoldable pub call :
      {A : Type 0} → (StoreError → Error) → Exec Store StoreError A → Exec (World R) Error A
  unfolding on_store map_error
  call f m = map_error f (on_store m)

  -- A call outside whose every error becomes the same one.
  unfoldable pub outside : {E A : Type 0} → Error → Exec R E A → Exec (World R) Error A
  unfolding on_runtime map_error
  outside e m = map_error (λ _. e) (on_runtime m)

  -- A call of a repository that writes, at the time of the database.
  unfoldable pub call_at :
      {A : Type 0}
      → Sources R
      → (StoreError → Error)
      → (Timestamp → Exec Store StoreError A)
      → Exec (World R) Error A
  unfolding call ask ◌>>=◌
  call_at sources f m = do now ← ask sources.trigger_time; call f (m now)

  -- `domain.NewTimestamp(s.clock.Now())`
  unfoldable pub stamp : Sources R → Exec (World R) Error Timestamp
  unfolding ask lift new_timestamp ◌>>=◌
  stamp sources = do t ← ask sources.now; lift (wrap (λ _. database_error) (new_timestamp t))
