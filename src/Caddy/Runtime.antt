-- ===== src/Caddy/Runtime.antt =====
-- `RuntimeManager` of core/internal/caddy/runtime.go, which owns the Caddy process. The process, the
-- admin endpoint, the validator, the file system and the timers are the fields of `Outside`. The mutex is
-- held for the whole of each operation, so that an operation is one step; loggers and readers are left
-- out, and the certificate renewals are only cancelled.
pub mod Crash
pub mod Stopped
use dav_deck.Common.{
  ℕ, zero, suc, Bool, true, false, not, ◌&&◌, ◌==◌, List, [], ◌∷◌, length, all, Option, none, some,
  Result, ok, err, if◌then◌else◌, take, ltb,
}
use dav_deck.Common.Text.{Text, codes, text_eq, is_empty, trim_space}
use dav_deck.Common.Exec.{Exec, pure, raise, modify, map_error, ◌>>=◌, ◌>>◌}
use dav_deck.Domain.Revision.{Bytes}
use dav_deck.App.Errors.{
  RuntimeErrorCode, start_failed, stop_failed, reload_failed, unhealthy, RuntimeFailure,
  runtime_error, other_error, drop_line_controls,
}
use dav_deck.App.World.{Environment, RuntimeStatus, stopped, failed, degraded, running}

-- The command and its channel: the value that `command.Wait` sends can still be received, or it has
-- been received, and the channel stays empty.
pub data Child : Type 0 where
  watched reaped : Child

-- What `command.Wait` returns: nil, an `exec.ExitError`, or another error.
pub data ExitStatus : Type 0 where
  clean exit_error wait_failed : ExitStatus

-- The cases of the `select` while Caddy starts.
pub data StartWake : Type 0 where
  exited : ExitStatus → StartWake
  deadline tick : StartWake

-- The cases of the `select` while Caddy stops; only a watched process is seen to exit.
pub data StopWake : Type 0 where
  stopped_with : ExitStatus → StopWake
  canceled timed_out : StopWake

pub record Outside (R : Type 0) : Type 0 where
  pub validate : Bytes → Exec R RuntimeFailure (Unit {0})
  pub validate_with_environment : Option (Bytes → Environment → Exec R RuntimeFailure (Unit {0}))
  pub write_config : Bytes → Exec R (Unit {0}) (Unit {0})
  pub spawn : Environment → Exec R (Unit {0}) (Unit {0})
  pub kill : R → R
  pub health : Exec R (Unit {0}) (Unit {0})
  pub admin_reload : Bytes → Exec R (Unit {0}) (Unit {0})
  pub admin_stop : Exec R (Unit {0}) (Unit {0})
  -- what the channel of the running process holds
  pub exit_value : R → Option ExitStatus × R
  pub start_wake : R → StartWake × R
  pub stop_wake : R → StopWake × R
  -- whether the context ends before the timer
  pub is_canceled : R → Bool × R
  pub cancel_renewals : R → R

-- `RuntimeManager`, and the state of what is outside.
pub record Manager (R : Type 0) : Type 0 where
  pub command : Option Child
  pub last_error_code : Option RuntimeErrorCode
  pub environment : Environment
  pub outside : R

pub record RuntimeSnapshot : Type 0 where
  pub caddy : RuntimeStatus
  pub web_dav : RuntimeStatus
  pub last_error_code : Option RuntimeErrorCode

-- The timeout of a start over the time between two polls: 15 s / 50 ms.
abbrev pub start_polls : ℕ
start_polls = 300

-- `m.environment[key]`
unfoldable pub lookup : Text → Environment → Text
unfolding text_eq
lookup key [] = []
lookup key ((k, value) ∷ env) = let rest = lookup key env in if text_eq k key then value else rest

-- The comparison of `EnvironmentMatches`.
unfoldable pub same_environment : Environment → Environment → Bool
unfolding text_eq lookup
same_environment inherited env =
    length inherited == length env && all (λ e. text_eq (lookup e.0 inherited) e.1) env

-- `safeRuntimeLogMessage`
unfoldable pub safe_log_message : Text → Text
unfolding drop_line_controls trim_space
safe_log_message message =
    let cleaned = drop_line_controls (trim_space message) in
    if ltb 512 (length cleaned)
    then take 512 cleaned
    else if is_empty cleaned
    then codes "Managed Caddy runtime failed"
    else cleaned

abbrev pub failure_code : RuntimeFailure → RuntimeErrorCode
failure_code (runtime_error code message) = code
failure_code other_error = unhealthy

abbrev pub is_running_child : Option ExitStatus → Bool
is_running_child none = true
is_running_child (some _) = false

module _ {R : Type 0} where
  -- `recordFailure`
  unfoldable pub recorded_result :
      {A : Type 0} → Result RuntimeFailure A × Manager R → Result RuntimeFailure A × Manager R
  recorded_result (ok a, m) = (ok a, m)
  recorded_result (err e, m) = (err e, record m { last_error_code = some (failure_code e) })

  unfoldable pub recorded :
      {A : Type 0} → Exec (Manager R) RuntimeFailure A → Exec (Manager R) RuntimeFailure A
  unfolding recorded_result
  recorded action m = recorded_result (action m)

  unfoldable pub on_outside : {E A : Type 0} → Exec R E A → Exec (Manager R) E A
  on_outside action m = let (r, outside) = action m.outside in (r, record m { outside = outside })

  -- A call outside, and the failure that stands for its error.
  unfoldable pub outside_or :
      RuntimeErrorCode
      → Text
      → Exec R (Unit {0}) (Unit {0})
      → Exec (Manager R) RuntimeFailure (Unit {0})
  unfolding on_outside map_error
  outside_or code message action = map_error (λ _. runtime_error code message) (on_outside action)

  -- A call that cannot fail.
  unfoldable pub query : {E A : Type 0} → (Manager R → A × Manager R) → Exec (Manager R) E A
  query f m = let (a, m') = f m in (ok a, m')

  unfoldable pub ask_outside : {A : Type 0} → (R → A × R) → Manager R → A × Manager R
  ask_outside f m = let (a, outside) = f m.outside in (a, record m { outside = outside })

  with_env :
      (Bytes → Exec R RuntimeFailure (Unit {0}))
      → Option (Bytes → Environment → Exec R RuntimeFailure (Unit {0}))
      → Bytes
      → Environment
      → Exec R RuntimeFailure (Unit {0})
  with_env plain none configuration env = plain configuration
  with_env plain (some method) configuration env = method configuration env

module _ {R : Type 0} (o : Outside R) where
  -- `validateWithEnvironment`
  unfoldable pub validate_with_environment : Bytes → Environment → Exec R RuntimeFailure (Unit {0})
  unfolding with_env
  validate_with_environment configuration env =
      with_env o.validate o.validate_with_environment configuration env

  received : Option ExitStatus × R → Manager R → Bool × Manager R
  received (none, outside) m = (true, record m { outside = outside })
  received (some e, outside) m = (false, record m { command = some reaped; outside = outside })

  running_child : Option Child → Manager R → Bool × Manager R
  unfolding received
  running_child none m = (false, m)
  running_child (some reaped) m = (true, m)
  running_child (some watched) m = received (o.exit_value m.outside) m

  -- `runningLocked`: the value of a process that has exited is received, and `command` stays.
  unfoldable pub running_locked : Manager R → Bool × Manager R
  unfolding running_child
  running_locked m = running_child m.command m

  unfoldable pub cancel_renewals : {E : Type 0} → Exec (Manager R) E (Unit {0})
  unfolding modify
  cancel_renewals = modify (λ m. record m { outside = o.cancel_renewals m.outside })

  -- The end of the loop for each case of its `select`.
  unfoldable pub became_healthy : Environment → Exec (Manager R) RuntimeFailure (Unit {0})
  unfolding modify
  became_healthy env = modify (λ m. record m { last_error_code = none; environment = env })

  unfoldable pub exited_during_startup : Exec (Manager R) RuntimeFailure (Unit {0})
  unfolding modify ◌>>=◌ recorded raise
  exited_during_startup = do
    modify (λ m. record m { command = none })
    recorded (raise (runtime_error start_failed (codes "Caddy exited during startup")))

  unfoldable pub not_healthy_in_time : Exec (Manager R) RuntimeFailure (Unit {0})
  unfolding modify ◌>>=◌ recorded raise
  not_healthy_in_time = do
    modify (λ m. record m { command = none; outside = o.kill m.outside })
    recorded (raise (runtime_error unhealthy (codes "Caddy did not become healthy")))

  unfoldable pub woken :
      Exec (Manager R) RuntimeFailure (Unit {0})
      → StartWake
      → Exec (Manager R) RuntimeFailure (Unit {0})
  unfolding exited_during_startup not_healthy_in_time
  woken rest (exited _) = exited_during_startup
  woken rest deadline = not_healthy_in_time
  woken rest tick = rest

  unfoldable pub polled :
      Exec (Manager R) RuntimeFailure (Unit {0})
      → Environment
      → Result (Unit {0}) (Unit {0}) × R
      → Exec (Manager R) RuntimeFailure (Unit {0})
  unfolding became_healthy woken query ask_outside ◌>>=◌
  polled rest env (ok _, outside) m = became_healthy env (record m { outside = outside })
  polled rest env (err _, outside) m =
      (do wake ← query (ask_outside o.start_wake); woken rest wake) (record m { outside = outside })

  -- One round of the loop.
  unfoldable pub poll :
      Exec (Manager R) RuntimeFailure (Unit {0})
      → Environment
      → Exec (Manager R) RuntimeFailure (Unit {0})
  unfolding polled
  poll rest env m = polled rest env (o.health m.outside) m

  -- The loop, with the ticks that fit before the deadline.
  unfoldable pub wait_healthy : ℕ → Environment → Exec (Manager R) RuntimeFailure (Unit {0})
  unfolding poll not_healthy_in_time
  wait_healthy zero env = poll not_healthy_in_time env
  wait_healthy (suc n) env = poll (wait_healthy n env) env

  unfoldable pub launch : Bytes → Environment → Exec (Manager R) RuntimeFailure (Unit {0})
  unfolding cancel_renewals validate_with_environment recorded on_outside outside_or modify
      wait_healthy ◌>>=◌
  launch configuration env = do
    cancel_renewals
    recorded (on_outside (validate_with_environment configuration env))
    recorded (
        outside_or start_failed (codes "Unable to save Caddy configuration")
          (o.write_config configuration))
    recorded (outside_or start_failed (codes "Unable to start Caddy") (o.spawn env))
    modify (λ m. record m { command = some watched })
    wait_healthy start_polls env

  -- `StartWithEnvironment`; `Start` is the case of the empty environment.
  unfoldable pub start_with_environment :
      Bytes → Environment → Exec (Manager R) RuntimeFailure (Unit {0})
  unfolding query running_locked launch pure ◌>>=◌
  start_with_environment configuration env = do
    is_running ← query running_locked
    if is_running then pure tt else launch configuration env

  -- `EnvironmentMatches`
  unfoldable pub environment_matches : Environment → Manager R → Bool × Manager R
  unfolding running_locked same_environment
  environment_matches env m =
      let (is_running, m') = running_locked m in
      (is_running && same_environment m'.environment env, m')

  -- `CurrentEnvironment`
  unfoldable pub current_environment : Manager R → Environment
  current_environment m = m.environment

  unfoldable pub reload_running : Bytes → Exec (Manager R) RuntimeFailure (Unit {0})
  unfolding recorded on_outside outside_or modify ◌>>=◌
  reload_running configuration = do
    recorded (on_outside (o.validate configuration))
    recorded (
        outside_or reload_failed (codes "Caddy rejected the reload") (o.admin_reload configuration))
    recorded (
        outside_or reload_failed
          (codes "Caddy reloaded but the startup configuration could not be saved")
          (o.write_config configuration))
    modify (λ m. record m { last_error_code = none })

  -- `Reload`
  unfoldable pub reload : Bytes → Exec (Manager R) RuntimeFailure (Unit {0})
  unfolding cancel_renewals query running_locked reload_running recorded raise ◌>>=◌
  reload configuration = do
    cancel_renewals
    is_running ← query running_locked
    if is_running
        then reload_running configuration
        else recorded (raise (runtime_error reload_failed (codes "Caddy is not running")))

  unfoldable pub stopped_cleanly : Exec (Manager R) RuntimeFailure (Unit {0})
  unfolding modify
  stopped_cleanly = modify (λ m. record m { command = none; last_error_code = none })

  canceled_or : Bool × R → StopWake × R
  canceled_or (true, outside) = (canceled, outside)
  canceled_or (false, outside) = (timed_out, outside)

  pub stop_wake : Option Child → R → StopWake × R
  unfolding canceled_or
  stop_wake (some watched) outside = o.stop_wake outside
  stop_wake _ outside = canceled_or (o.is_canceled outside)

  -- The cases of the `select` of `Stop`.
  unfoldable pub stop_after : StopWake → Exec (Manager R) RuntimeFailure (Unit {0})
  unfolding modify recorded raise stopped_cleanly ◌>>=◌
  stop_after (stopped_with clean) = stopped_cleanly
  stop_after (stopped_with exit_error) = stopped_cleanly
  stop_after (stopped_with wait_failed) = do
    modify (λ m. record m { command = none })
    recorded (raise (runtime_error stop_failed (codes "Caddy shutdown failed")))
  stop_after canceled =
      recorded (raise (runtime_error stop_failed (codes "Caddy shutdown was canceled")))
  stop_after timed_out = do
    modify (λ m. record m { command = none; outside = o.kill m.outside })
    recorded (raise (runtime_error stop_failed (codes "Caddy shutdown timed out")))

  unfoldable pub stop_running : Exec (Manager R) RuntimeFailure (Unit {0})
  unfolding recorded outside_or query ask_outside stop_wake stop_after ◌>>=◌
  stop_running = do
    recorded (outside_or stop_failed (codes "Unable to request Caddy shutdown") o.admin_stop)
    wake ← query (λ m. ask_outside (stop_wake m.command) m)
    stop_after wake

  -- `Stop`
  unfoldable pub stop : Exec (Manager R) RuntimeFailure (Unit {0})
  unfolding cancel_renewals query running_locked stop_running stopped_cleanly ◌>>=◌
  stop = do
    cancel_renewals
    is_running ← query running_locked
    if is_running then stop_running else stopped_cleanly

  -- `Restart`
  unfoldable pub restart : Bytes → Exec (Manager R) RuntimeFailure (Unit {0})
  unfolding stop start_with_environment ◌>>=◌
  restart configuration = do stop; start_with_environment configuration []

  abbrev state_of : Option RuntimeErrorCode → RuntimeStatus
  state_of none = stopped
  state_of (some _) = failed

  not_running_snapshot : Option RuntimeErrorCode → RuntimeSnapshot
  not_running_snapshot code = record {
    caddy = state_of code;
    web_dav = state_of code;
    last_error_code = code;
  }

  healthy_snapshot : Manager R → Result (Unit {0}) (Unit {0}) × R → RuntimeSnapshot × Manager R
  healthy_snapshot m (ok _, outside) = (
    record { caddy = running; web_dav = running; last_error_code = m.last_error_code },
    record m { outside = outside },
  )
  healthy_snapshot m (err _, outside) = (
    record { caddy = degraded; web_dav = degraded; last_error_code = some unhealthy },
    record m { outside = outside },
  )

  snapshot_of : Bool × Manager R → RuntimeSnapshot × Manager R
  unfolding not_running_snapshot healthy_snapshot
  snapshot_of (false, m) = (not_running_snapshot m.last_error_code, record m { command = none })
  snapshot_of (true, m) = healthy_snapshot m (o.health m.outside)

  -- `StatusSnapshot`
  unfoldable pub status_snapshot : Manager R → RuntimeSnapshot × Manager R
  unfolding running_locked snapshot_of
  status_snapshot m = snapshot_of (running_locked m)
