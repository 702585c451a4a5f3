-- ===== src/Caddy/Runtime/Stopped.antt =====
-- `Stop`, `StartWithEnvironment` and `StatusSnapshot` of core/internal/caddy/runtime.go together.
use dav_deck.Common.{
  ◌≡◌, refl, sym, subst, ℕ, zero, suc, Bool, true, false, some, none, Result, ok, err,
  if◌then◌else◌,
}
use dav_deck.Common.Exec.{Exec, ◌>>=◌, ◌>>◌, modify, raise, pure, map_error}
use dav_deck.Common.Exec.Outcome.{outcome-bind}
use dav_deck.Common.Text.{codes}
use dav_deck.Domain.Revision.{Bytes}
use dav_deck.App.Errors.{RuntimeFailure, start_failed, stop_failed}
use dav_deck.App.World.{Environment, stopped, failed}
use dav_deck.Caddy.Runtime.{
  Manager, Outside, watched, failure_code, start_with_environment, StartWake, StopWake,
  stopped_with, canceled, timed_out, clean, exit_error, wait_failed, stop_wake, exited, deadline,
  tick, polled, woken, recorded_result, stop, stop_running, stop_after, stopped_cleanly,
  status_snapshot, running_locked, query, cancel_renewals, recorded, launch, wait_healthy, poll,
  start_polls, outside_or, on_outside, validate_with_environment, became_healthy,
  not_healthy_in_time, exited_during_startup, ask_outside,
}

module _ {R : Type 0} where
  -- A start that was made: a watched process with the environment and no error, or no process and
  -- the code of the error.
  abbrev Started : Environment → Result RuntimeFailure (Unit {0}) × Manager R → Type 0
  Started env (ok _, m) =
      (m.command ≡ some watched) × (m.last_error_code ≡ none) × (m.environment ≡ env)
  Started env (err e, m) = (m.command ≡ none) × (m.last_error_code ≡ some (failure_code e))

  -- A step before the process is there.
  abbrev NotYet : Result RuntimeFailure (Unit {0}) × Manager R → Type 0
  NotYet (ok _, m) = m.command ≡ none
  NotYet (err e, m) = (m.command ≡ none) × (m.last_error_code ≡ some (failure_code e))

  recorded-NotYet :
      (r : Result RuntimeFailure (Unit {0})) (m : Manager R)
      → m.command ≡ none
      → NotYet (recorded_result (r, m))
  unfolding recorded_result
  recorded-NotYet (ok _) m h = h
  recorded-NotYet (err e) m h = (h, refl)

  and_then :
      (env : Environment) (first : Exec (Manager R) RuntimeFailure (Unit {0}))
      (next : Unit {0} → Exec (Manager R) RuntimeFailure (Unit {0})) (m : Manager R)
      → NotYet (first m)
      → ((m : Manager R) → m.command ≡ none → Started env (next tt m))
      → Started env ((first >>= next) m)
  and_then env first next m h k =
      outcome-bind (Started env) first next m (λ e m' same. subst NotYet same h)
        (λ a m' same. k m' (subst NotYet same h))

module _ {R : Type 0} (o : Outside R) (env : Environment) where
  module _ (rest : Exec (Manager R) RuntimeFailure (Unit {0}))
      (k : (m : Manager R) → m.command ≡ some watched → Started env (rest m)) where
    woken-Started :
        (wake : StartWake) (m : Manager R)
        → m.command ≡ some watched
        → Started env (woken o rest wake m)
    unfolding woken not_healthy_in_time exited_during_startup recorded recorded_result raise modify
        ◌>>=◌
    woken-Started (exited _) m h = (refl, refl)
    woken-Started deadline m h = (refl, refl)
    woken-Started tick m h = k m h

    polled-Started :
        (health : Result (Unit {0}) (Unit {0}) × R) (m : Manager R)
        → m.command ≡ some watched
        → Started env (polled o rest env health m)
    unfolding polled became_healthy query ask_outside modify ◌>>=◌
    polled-Started (ok _, outside) m h = (h, refl, refl)
    polled-Started (err _, outside) m h =
        woken-Started (o.start_wake outside).0 (record m { outside = (o.start_wake outside).1 }) h

    poll-Started : (m : Manager R) → m.command ≡ some watched → Started env (poll o rest env m)
    unfolding poll
    poll-Started m h = polled-Started (o.health m.outside) m h

  wait_healthy-Started :
      (n : ℕ) (m : Manager R) → m.command ≡ some watched → Started env (wait_healthy o n env m)
  unfolding wait_healthy not_healthy_in_time recorded recorded_result raise modify ◌>>=◌
  wait_healthy-Started zero m h = poll-Started (not_healthy_in_time o) (λ m h. (refl, refl)) m h
  wait_healthy-Started (suc n) m h =
      poll-Started (wait_healthy o n env) (λ m h. wait_healthy-Started n m h) m h

  -- The rest of `launch` after each of its steps.
  abbrev run : Exec (Manager R) RuntimeFailure (Unit {0})
  run = modify (λ m. record m { command = some watched }) >> wait_healthy o start_polls env

  abbrev spawn : Exec (Manager R) RuntimeFailure (Unit {0})
  spawn = recorded (outside_or start_failed (codes "Unable to start Caddy") (o.spawn env)) >> run

  abbrev save : Bytes → Exec (Manager R) RuntimeFailure (Unit {0})
  save configuration =
      recorded (
        outside_or start_failed (codes "Unable to save Caddy configuration")
          (o.write_config configuration))
      >> spawn

  abbrev check : Bytes → Exec (Manager R) RuntimeFailure (Unit {0})
  check configuration =
      recorded (on_outside (validate_with_environment o configuration env)) >> save configuration

  run-Started : (m : Manager R) → Started env (run m)
  unfolding modify ◌>>=◌
  run-Started m = wait_healthy-Started start_polls (record m { command = some watched }) refl

  launch-Started :
      (configuration : Bytes) (m : Manager R)
      → m.command ≡ none
      → Started env (launch o configuration env m)
  unfolding launch cancel_renewals recorded on_outside outside_or map_error modify
  launch-Started configuration m h =
      and_then env (cancel_renewals o) (λ _. check configuration) m h
        λ m h.
          and_then env (recorded (on_outside (validate_with_environment o configuration env)))
            (λ _. save configuration) m (recorded-NotYet _ _ h)
            λ m h.
              and_then env
                (recorded (
                  outside_or start_failed (codes "Unable to save Caddy configuration")
                    (o.write_config configuration)))
                (λ _. spawn) m (recorded-NotYet _ _ h)
                λ m h.
                  and_then env
                    (recorded
                      (outside_or start_failed (codes "Unable to start Caddy") (o.spawn env)))
                    (λ _. run) m (recorded-NotYet _ _ h) λ m h. run-Started m

  start-Started :
      (configuration : Bytes) (m : Manager R)
      → m.command ≡ none
      → Started env (start_with_environment o configuration env m)
  unfolding start_with_environment running_locked query pure ◌>>=◌
  start-Started configuration m h =
      subst
        (λ c. Started env (start_with_environment o configuration env (record m { command = c })))
        (sym h) (launch-Started configuration (record m { command = none }) refl)

module _ {R : Type 0} (o : Outside R) where
  -- What `StatusSnapshot` says after a start.
  abbrev pub SaysStarted : Environment → Result RuntimeFailure (Unit {0}) × Manager R → Type 0
  SaysStarted env (ok _, m) =
      (m.command ≡ some watched) × (m.last_error_code ≡ none) × (m.environment ≡ env)
  SaysStarted env (err e, m) =
      (status_snapshot o m).0
      ≡ record { caddy = failed; web_dav = failed; last_error_code = some (failure_code e) }

  says_failed :
      (e : RuntimeFailure) (m : Manager R)
      → m.command ≡ none
      → m.last_error_code ≡ some (failure_code e)
      → (status_snapshot o m).0
        ≡ record { caddy = failed; web_dav = failed; last_error_code = some (failure_code e) }
  unfolding status_snapshot running_locked
  says_failed e m h k = rw (h, k) refl

  says_started :
      (env : Environment) (r : Result RuntimeFailure (Unit {0})) (m : Manager R)
      → Started env (r, m)
      → SaysStarted env (r, m)
  says_started env (ok _) m h = h
  says_started env (err e) m (h, k) = says_failed e m h k

  -- A start without a command: where it succeeds, the manager watches the process, holds the
  -- environment that it was given, and has no error; where it fails, the status is FAILED, with the
  -- code of the error.
  pub start-SaysStarted :
      (env : Environment) (configuration : Bytes) (m : Manager R)
      → m.command ≡ none
      → SaysStarted env (start_with_environment o configuration env m)
  start-SaysStarted env configuration m h =
      says_started env (start_with_environment o configuration env m).0
        (start_with_environment o configuration env m).1 (start-Started o env configuration m h)

  abbrev Cleared : Result RuntimeFailure (Unit {0}) × Manager R → Type 0
  Cleared (ok _, m) = (m.command ≡ none) × (m.last_error_code ≡ none)
  Cleared (err e, m) = m.last_error_code ≡ some (failure_code e)

  stop_after-Cleared : (wake : StopWake) (m : Manager R) → Cleared (stop_after o wake m)
  unfolding stop_after stopped_cleanly recorded recorded_result raise modify ◌>>=◌
  stop_after-Cleared (stopped_with clean) m = (refl, refl)
  stop_after-Cleared (stopped_with exit_error) m = (refl, refl)
  stop_after-Cleared (stopped_with wait_failed) m = refl
  stop_after-Cleared canceled m = refl
  stop_after-Cleared timed_out m = refl

  abbrev Coded : Result RuntimeFailure (Unit {0}) × Manager R → Type 0
  Coded (ok _, m) = Unit
  Coded (err e, m) = m.last_error_code ≡ some (failure_code e)

  recorded-Coded :
      (r : Result RuntimeFailure (Unit {0})) (m : Manager R) → Coded (recorded_result (r, m))
  unfolding recorded_result
  recorded-Coded (ok _) m = tt
  recorded-Coded (err e) m = refl

  -- The second half of `stop_running`.
  abbrev wait_stop : Exec (Manager R) RuntimeFailure (Unit {0})
  wait_stop = query (λ m. ask_outside (stop_wake o m.command) m) >>= stop_after o

  wait_stop-Cleared : (m : Manager R) → Cleared (wait_stop m)
  unfolding query ask_outside ◌>>=◌
  wait_stop-Cleared m =
      stop_after-Cleared (stop_wake o m.command m.outside).0
        (record m { outside = (stop_wake o m.command m.outside).1 })

  stop_running-Cleared : (m : Manager R) → Cleared (stop_running o m)
  unfolding stop_running recorded outside_or on_outside map_error
  stop_running-Cleared m =
      outcome-bind Cleared
        (recorded (outside_or stop_failed (codes "Unable to request Caddy shutdown") o.admin_stop))
        (λ _. wait_stop) m (λ e m' same. subst Coded same (recorded-Coded _ _))
        (λ a m' same. wait_stop-Cleared m')

  stop_if-Cleared :
      (is_running : Bool) (m : Manager R)
      → Cleared ((if is_running then stop_running o else stopped_cleanly o) m)
  unfolding stopped_cleanly modify
  stop_if-Cleared true m = stop_running-Cleared m
  stop_if-Cleared false m = (refl, refl)

  stop-Cleared : (m : Manager R) → Cleared (stop o m)
  unfolding stop cancel_renewals query modify ◌>>=◌
  stop-Cleared m =
      let m' = record m { outside = o.cancel_renewals m.outside } in
      stop_if-Cleared (running_locked o m').0 (running_locked o m').1

  -- What `StatusSnapshot` says after a stop.
  abbrev pub SaysStopped : Result RuntimeFailure (Unit {0}) × Manager R → Type 0
  SaysStopped (ok _, m) =
      (status_snapshot o m).0
      ≡ record { caddy = stopped; web_dav = stopped; last_error_code = none }
  SaysStopped (err e, m) = m.last_error_code ≡ some (failure_code e)

  says_stopped :
      (r : Result RuntimeFailure (Unit {0})) (m : Manager R) → Cleared (r, m) → SaysStopped (r, m)
  unfolding status_snapshot running_locked
  says_stopped (ok _) m (h, k) = rw (h, k) refl
  says_stopped (err e) m h = h

  -- After every `Stop` that succeeds the status is STOPPED without an error code, whatever the manager's
  -- state was; one that fails leaves the code of its error.
  pub stop-SaysStopped : (m : Manager R) → SaysStopped (stop o m)
  stop-SaysStopped m = says_stopped (stop o m).0 (stop o m).1 (stop-Cleared m)
