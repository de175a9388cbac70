-- ===== src/Bridge/Allowed.antt =====
-- What the bridge lets run on its machine.
use patze_control.Base.{
  Bool, Option, none, some, String, ◌==◌, eq_iff, List, Bool-cases, ◌≡◌, ◌⊎◌, refl, inl, inr,
}
use patze_control.Value.{Value, undefined, get}
use patze_control.BridgeCommands.Types.{
  BridgeCommandIntent, trigger_job, agent_set_enabled, approve_request, run_command,
}
use patze_control.Bridge.Controller.{
  Texts, OpenClawControllerOptions, ChildCall, ChildEnd, threw, Built, builds, throws, as_string,
  job_command, enable_command, approval_command, free_command, build_command, report_of, execute,
}

-- The program that a command asks for; only `run_command` names one.
abbrev pub program_named : Texts → BridgeCommandIntent → Value → Option String
program_named texts run_command args = as_string texts (get args "command")
program_named texts _ args = some "openclaw"

-- A command that is built runs `openclaw`, and this is what it asks for.
abbrev IsOpenclaw : Option String → Built → Type 0
IsOpenclaw named built =
    ((message : String) × (built ≡ throws message))
    ⊎ ((args : List String) × (built ≡ builds (record { command = "openclaw"; args = args }))
        × (named ≡ some "openclaw"))

job_command-IsOpenclaw :
    (job_id : Option String) → IsOpenclaw (some "openclaw") (job_command job_id)
job_command-IsOpenclaw none = inl (_, refl)
job_command-IsOpenclaw (some job_id) = inr (_, refl, refl)

enable_command-IsOpenclaw :
    (agent_id : Option String) (enabled : Option Bool)
    → IsOpenclaw (some "openclaw") (enable_command agent_id enabled)
enable_command-IsOpenclaw none enabled = inl (_, refl)
enable_command-IsOpenclaw (some agent_id) none = inl (_, refl)
enable_command-IsOpenclaw (some agent_id) (some enabled) = inr (_, refl, refl)

approval_command-IsOpenclaw :
    (request_id : Option String) → IsOpenclaw (some "openclaw") (approval_command request_id)
approval_command-IsOpenclaw none = inl (_, refl)
approval_command-IsOpenclaw (some request_id) = inr (_, refl, refl)

free_command-IsOpenclaw :
    (command : Option String) (args : List String) → IsOpenclaw command (free_command command args)
free_command-IsOpenclaw none args = inl (_, refl)
free_command-IsOpenclaw (some command) args = elim (Bool-cases (command == "openclaw")) [
  | inl own ↦
      let same : command ≡ "openclaw" = (eq_iff command "openclaw").0 own in
      inr (args, rw same refl, rw same refl)
  | inr other ↦ inl ("run_command only allows command=openclaw", rw other refl)
]

build_command-IsOpenclaw :
    (texts : Texts) (intent : BridgeCommandIntent) (args : Value)
    → IsOpenclaw (program_named texts intent args) (build_command texts intent args)
unfolding build_command
build_command-IsOpenclaw texts trigger_job args = job_command-IsOpenclaw _
build_command-IsOpenclaw texts agent_set_enabled args = enable_command-IsOpenclaw _ _
build_command-IsOpenclaw texts approve_request args = approval_command-IsOpenclaw _
build_command-IsOpenclaw texts run_command args = free_command-IsOpenclaw _ _

-- Nothing is started and a failure is reported, or the configured program is started in its home, for
-- a command that asks for `openclaw`.
abbrev pub Starts :
    Texts
    → OpenClawControllerOptions
    → (ChildCall → ChildEnd)
    → Value
    → BridgeCommandIntent
    → Value
    → Type 0
Starts texts options run_child duration intent args =
    let report = execute texts options run_child duration intent args in
    ((message : String) × (report
        ≡ report_of texts options duration (threw undefined none none message)))
    ⊎ ((words : List String) × (report
          ≡ report_of texts options duration (
              run_child (record {
                program = options.openclaw_bin;
                args = words;
                cwd = options.openclaw_home_dir;
              })))
        × (program_named texts intent args ≡ some "openclaw"))

-- Whatever intent and arguments a command carries, the only program that the bridge starts for it is the
-- `openclaw` of its configuration, in its home; a command that names another program than `openclaw`
-- starts nothing and is reported as failed.
pub only_openclaw_runs :
    (texts : Texts) (options : OpenClawControllerOptions) (run_child : ChildCall → ChildEnd)
    (duration : Value) (intent : BridgeCommandIntent) (args : Value)
    → Starts texts options run_child duration intent args
unfolding execute
only_openclaw_runs texts options run_child duration intent args =
    elim (build_command-IsOpenclaw texts intent args) [
      | inl (message, e) ↦ inl (message, rw e refl)
      | inr (words, e, named) ↦ inr (words, rw e refl, named)
    ]
