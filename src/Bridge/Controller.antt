-- ===== src/Bridge/Controller.antt =====
-- What a command runs and what it reports
-- (packages/openclaw-bridge/src/openclaw-controller.ts).
use Prim.Native.String.{◌++◌}
use patze_control.Base.{
  ℕ, Bool, true, false, not, ◌||◌, Option, none, some, String, ◌==◌, List, [], ◌∷◌, leb,
  if◌then◌else◌, or_else,
}
use patze_control.Value.{
  Value, undefined, text, bool, number, array, Items, nil, cons, is_number, get,
}
use patze_control.BridgeCommands.Types.{
  BridgeCommandIntent, trigger_job, agent_set_enabled, approve_request, run_command,
  result_succeeded, result_failed, BridgeCommandResult,
}

-- What the runtime does with texts: their length in UTF-8, the text of their first bytes, and whether
-- `trim` leaves nothing.
pub record Texts : Type 0 where
  pub byte_length : String → ℕ
  pub first_bytes : ℕ → String → String
  pub is_blank : String → Bool

unfoldable pub truncate_output : Texts → String → ℕ → String × Bool
truncate_output texts value max_bytes =
    if leb (texts.byte_length value) max_bytes
    then (value, false)
    else (texts.first_bytes max_bytes value, true)

abbrev pub as_string : Texts → Value → Option String
as_string texts (text s) = if texts.is_blank s then none else some s
as_string texts _ = none

abbrev pub as_boolean : Value → Option Bool
as_boolean (bool b) = some b
as_boolean _ = none

abbrev pub strings_of : Items → List String
strings_of nil = []
strings_of (cons (text s) vs) = s ∷ strings_of vs
strings_of (cons _ vs) = strings_of vs

abbrev pub as_string_array : Value → List String
as_string_array (array vs) = strings_of vs
as_string_array _ = []

pub record BuiltCliCommand : Type 0 where
  pub command : String
  pub args : List String

-- `buildCommand` returns a command or throws an error with a message.
pub data Built : Type 0 where
  builds : BuiltCliCommand → Built
  throws : String → Built

abbrev openclaw : List String → Built
openclaw args = builds (record { command = "openclaw"; args = args })

abbrev pub job_command : Option String → Built
job_command none = throws "trigger_job requires args.jobId"
job_command (some job_id) = openclaw ("cron" ∷ "run" ∷ job_id ∷ [])

abbrev pub enable_command : Option String → Option Bool → Built
enable_command none enabled = throws "agent_set_enabled requires args.agentId and args.enabled"
enable_command (some agent_id) none =
    throws "agent_set_enabled requires args.agentId and args.enabled"
enable_command (some agent_id) (some enabled) = openclaw (
    "config"
    ∷ "set"
    ∷ ("agents." ++ agent_id ++ ".enabled")
    ∷ (if enabled then "true" else "false")
    ∷ [])

abbrev pub approval_command : Option String → Built
approval_command none = throws "approve_request requires args.requestId"
approval_command (some request_id) = openclaw ("approvals" ∷ "approve" ∷ request_id ∷ [])

abbrev pub free_command : Option String → List String → Built
free_command none args = throws "run_command requires args.command"
free_command (some command) args =
    if not (command == "openclaw")
    then throws "run_command only allows command=openclaw"
    else builds (record { command = command; args = args })

unfoldable pub build_command : Texts → BridgeCommandIntent → Value → Built
build_command texts trigger_job args = job_command (as_string texts (get args "jobId"))
build_command texts agent_set_enabled args =
    enable_command (as_string texts (get args "agentId")) (as_boolean (get args "enabled"))
build_command texts approve_request args = approval_command (as_string texts (get args "requestId"))
build_command texts run_command args =
    free_command (as_string texts (get args "command")) (as_string_array (get args "args"))

-- How the child process ends: well, or with an exception and what it has left behind.
pub data ChildEnd : Type 0 where
  finished : String → String → ChildEnd
  threw : Value → Option String → Option String → String → ChildEnd

pub record OpenClawControllerOptions : Type 0 where
  pub openclaw_bin : String
  pub openclaw_home_dir : String
  pub max_stdout_bytes : ℕ
  pub max_stderr_bytes : ℕ

abbrev number_zero : Value
number_zero = number 0

abbrev number_one : Value
number_one = number 0x3ff0000000000000

unfoldable pub report_of :
    Texts → OpenClawControllerOptions → Value → ChildEnd → BridgeCommandResult
unfolding truncate_output
report_of texts options duration (finished stdout stderr) =
    let out = truncate_output texts stdout options.max_stdout_bytes in
    let err = truncate_output texts stderr options.max_stderr_bytes in
    record {
      status = result_succeeded;
      exit_code = number_zero;
      duration_ms = duration;
      stdout = out.0;
      stderr = err.0;
      truncated = out.1 || err.1;
      artifact = none;
      duplicate = none;
    }
report_of texts options duration (threw code stdout stderr message) =
    let out = truncate_output texts (or_else stdout "") options.max_stdout_bytes in
    let err = truncate_output texts (or_else stderr message) options.max_stderr_bytes in
    record {
      status = result_failed;
      exit_code = if is_number code then code else number_one;
      duration_ms = duration;
      stdout = out.0;
      stderr = err.0;
      truncated = out.1 || err.1;
      artifact = none;
      duplicate = none;
    }

-- What `execFile` is called with.
pub record ChildCall : Type 0 where
  pub program : String
  pub args : List String
  pub cwd : String

abbrev pub child_call : OpenClawControllerOptions → BuiltCliCommand → ChildCall
child_call options built = record {
  program = if built.command == "openclaw" then options.openclaw_bin else built.command;
  args = built.args;
  cwd = options.openclaw_home_dir;
}

abbrev pub child_of : OpenClawControllerOptions → (ChildCall → ChildEnd) → Built → ChildEnd
child_of options run_child (throws message) = threw undefined none none message
child_of options run_child (builds built) = run_child (child_call options built)

-- `execute`: the program `openclaw` itself, the time it takes and its output are parameters.
unfoldable pub execute :
    Texts
    → OpenClawControllerOptions
    → (ChildCall → ChildEnd)
    → Value
    → BridgeCommandIntent
    → Value
    → BridgeCommandResult
unfolding build_command report_of
execute texts options run_child duration intent args =
    report_of texts options duration (child_of options run_child (build_command texts intent args))
