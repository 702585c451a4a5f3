-- ===== src/App/World.antt =====
-- What `ApplyService` of core/internal/app/apply_service.go works with: the database, the runtime
-- and the other collaborators behind Go interfaces, the sources of ids and times, and the lock.
pub mod From
pub mod Views
use dav_deck.Common.{Bool, true, false, List, Option, ok}
use dav_deck.Common.Text.{Text}
use dav_deck.Common.Exec.{Exec, map_error}
use dav_deck.Domain.Id.{EntityId}
use dav_deck.Domain.Timestamp.{Timestamp}
use dav_deck.Domain.Revision.{Bytes}
use dav_deck.Domain.Input.{RuntimeConfigInput}
use dav_deck.Storage.Database.{Store, StoreError}
use dav_deck.App.Errors.{Error, RuntimeFailure, database_error}

-- `caddy.CompiledConfig`
pub record CompiledConfig : Type 0 where
  pub json : Bytes
  pub sha256 : Text
  pub warnings : List Text

-- `status.State`
pub data RuntimeStatus : Type 0 where
  not_installed stopped starting running stopping degraded failed unknown : RuntimeStatus

abbrev pub is_running : RuntimeStatus → Bool
is_running running = true
is_running _ = false

-- The environment of the Caddy process; the empty list stands for Go's nil map too.
abbrev pub Environment : Type 0
Environment = List (Text × Text)

-- The collaborators, over a state `R` that is theirs. A method that Go finds by a type assertion
-- is optional. `now` and `new_id` stand for the clock and the random source.
pub record Collaborators (R : Type 0) : Type 0 where
  pub compile : RuntimeConfigInput → Option CompiledConfig
  pub validate : Bytes → Exec R RuntimeFailure (Unit {0})
  pub validate_with_environment : Option (Bytes → Environment → Exec R RuntimeFailure (Unit {0}))
  pub start : Bytes → Exec R RuntimeFailure (Unit {0})
  pub start_with_environment : Option (Bytes → Environment → Exec R RuntimeFailure (Unit {0}))
  pub reload : Bytes → Exec R RuntimeFailure (Unit {0})
  pub stop : Exec R RuntimeFailure (Unit {0})
  pub status : R → RuntimeStatus × R
  pub environment_matches : Option (Environment → R → Bool × R)
  pub current_environment : Option (R → Environment)
  pub environment : Option (RuntimeConfigInput → Exec R Error Environment)
  pub now : R → Timestamp × R
  pub new_id : Exec R (Unit {0}) EntityId

pub record World (R : Type 0) : Type 0 where
  pub store : Store
  pub runtime : R
  pub locked : Bool

module _ {R : Type 0} where
  -- A repository call; its error is told apart by the caller.
  unfoldable pub on_store : {E A : Type 0} → Exec Store E A → Exec (World R) E A
  on_store m w = let (r, store) = m w.store in (r, record w { store = store })

  unfoldable pub on_runtime : {E A : Type 0} → Exec R E A → Exec (World R) E A
  on_runtime m w = let (r, runtime) = m w.runtime in (r, record w { runtime = runtime })

  unfoldable pub ask : {E A : Type 0} → (R → A × R) → Exec (World R) E A
  ask f w = let (a, runtime) = f w.runtime in (ok a, record w { runtime = runtime })

  -- A repository call whose every error becomes `databaseError`.
  unfoldable pub database : {A : Type 0} → Exec Store StoreError A → Exec (World R) Error A
  database m = map_error (λ _. database_error) (on_store m)
