-- ===== src/Script.antt =====
-- policyd_py/script_runner.py and policyd_py/actions/script_provider.py: commands that are rendered from
-- a template and run as processes, and the provider that locks and unlocks accounts by them. Templates,
-- the splitting of a command, the processes and the clock are parameters.
use policyd_py.Base.{
  ℕ, max, ◌==◌, ℤ, pos, negsuc, Bool, false, List, [], ◌∷◌, ◌++◌, map, is_empty, if◌then◌else◌,
  Text, codes, decimal, strip, runtime_error, Outcome, returned, raised, Eff, pure, raise, ◌>>=◌,
  ◌>>◌,
}
use policyd_py.Base.Dict.{Dict, put, has_key}
use policyd_py.Actions.{ActionProvider}

-- The values of a payload: None, a text, or a number.
pub data Value : Type 0 where
  null : Value
  text : Text → Value
  number : ℕ → Value

-- What `process.communicate()` comes to within the time that it has.
pub data Completion : Type 0 where
  timed_out : Completion
  -- with the return code, which is negative where a signal ended the process
  finished : ℤ → Text → Text → Completion

pub record Processes (World : Type 0) : Type 0 where
  pub timestamp : World → Text
  -- Template(command).safe_substitute(data)
  pub safe_substitute : Text → Dict Text → Text
  -- shlex.split(command), with its ValueError
  pub split : Text → Outcome (List Text)
  -- create_subprocess_exec and wait_for(process.communicate(), timeout), decoded
  pub communicate : List Text → ℕ → Eff World Completion
  -- process.kill() and process.wait(), for the process that runs last
  pub kill : World → World
  pub show : ℤ → Text

pub record ScriptRunner : Type 0 where
  pub timeout_seconds : ℕ

unfoldable pub new_runner : ℕ → ScriptRunner
new_runner timeout_seconds = record { timeout_seconds = max timeout_seconds 1 }

unfoldable pub to_string : Value → Text
to_string null = []
to_string (text s) = s
to_string (number n) = decimal n

-- data.setdefault(key, value)
abbrev pub set_default : Dict Text → Text → Text → Dict Text
set_default d key value = if has_key d key then d else put d key value

-- stderr_text or stdout_text or f"exit code {process.returncode}"
unfoldable pub first_of : Text → Text → Text → Text
first_of (c ∷ s) out code = c ∷ s
first_of [] (c ∷ s) code = c ∷ s
first_of [] [] code = code

unfoldable pub is_zero : ℤ → Bool
is_zero (pos n) = n == 0
is_zero (negsuc n) = false

module _ {World : Type 0} (processes : Processes World) where
  abbrev pub lifted : {A : Type 0} → Outcome A → Eff World A
  lifted o w = (o, w)

  -- `_render`
  unfoldable pub render : Text → Dict Value → World → Text
  unfolding to_string
  render command_template payload w = processes.safe_substitute command_template (
      set_default (map (λ (key, value). (key, to_string value)) payload) (codes "timestamp")
        (processes.timestamp w))

  unfoldable pub completed : ScriptRunner → Text → Completion → Eff World Text
  unfolding is_zero first_of
  completed runner program timed_out w = (
    raised (
        runtime_error (
          codes "script timed out after "
          ++ (decimal runner.timeout_seconds ++ (codes "s: " ++ program)))),
    processes.kill w,
  )
  completed runner program (finished code stdout stderr) w =
      if is_zero code then (returned (strip stdout), w) else (
        raised (
            runtime_error (
              codes "script failed: "
              ++ first_of (strip stderr) (strip stdout)
                  (codes "exit code " ++ processes.show code))),
        w,
      )

  unfoldable pub run_argv : ScriptRunner → List Text → Eff World Text
  unfolding completed
  run_argv runner [] = raise (runtime_error (codes "script command rendered to empty argv"))
  run_argv runner (program ∷ arguments) =
      processes.communicate (program ∷ arguments) runner.timeout_seconds
      >>= completed runner program

  unfoldable pub run : ScriptRunner → Text → Dict Value → Eff World Text
  unfolding render run_argv
  run runner command_template payload w =
      (lifted (processes.split (render command_template payload w)) >>= run_argv runner) w

  -- `ScriptActionProvider._run`
  unfoldable pub run_command : ScriptRunner → Text → Dict Value → Eff World Text
  unfolding run
  run_command runner command payload =
      if is_empty (strip command)
      then raise (runtime_error (codes "script command is not configured"))
      else run runner command payload

pub record ScriptConfig : Type 0 where
  pub lock_command : Text
  pub unlock_command : Text
  pub status_command : Text
  pub notify_command : Text
  pub timeout_seconds : ℕ

module _ {World : Type 0} (processes : Processes World) (config : ScriptConfig) where
  abbrev pub runner : ScriptRunner
  runner = new_runner config.timeout_seconds

  unfoldable pub lock_account : Text → Text → Eff World (Unit {0})
  unfolding run_command
  lock_account email reason = do
    run_command processes runner config.lock_command (
        (codes "action", text (codes "lock"))
        ∷ (codes "email", text email)
        ∷ (codes "reason", text reason)
        ∷ [])
    pure tt

  unfoldable pub unlock_account : Text → Eff World (Unit {0})
  unfolding run_command
  unlock_account email = do
    run_command processes runner config.unlock_command
        ((codes "action", text (codes "unlock")) ∷ (codes "email", text email) ∷ [])
    pure tt

  unfoldable pub get_account_status : Text → Eff World Text
  unfolding run_command
  get_account_status email = do
    output ←
        run_command processes runner config.status_command
          ((codes "action", text (codes "status")) ∷ (codes "email", text email) ∷ [])
    pure (strip output)

  -- The provider as the action manager calls it.
  unfoldable pub as_provider : ActionProvider World
  unfolding lock_account unlock_account get_account_status
  as_provider = record {
    name = codes "script";
    lock_account = lock_account;
    unlock_account = unlock_account;
    get_account_status = get_account_status;
    close = pure tt;
  }
