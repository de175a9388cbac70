-- ===== src/Bridge/Tests.antt =====
-- The theorems about the bridge process at concrete inputs.
use patze_control.Base.{ℕ, true, false, none, some, List, [], ◌∷◌, ◌≡◌, refl, arith, Bool}
use patze_control.Value.{text, number, object, field, end, get, lookup_field}
use patze_control.BridgeCommands.Types.{
  queued, trigger_job, BridgeCommandSnapshot, result_succeeded, BridgeCommandResult,
  BridgeCommandRecord,
}
use patze_control.BridgeCommands.Store.{modify, is_foreign_owner}
use patze_control.BridgeCommands.Methods.{
  poll, ack_running, push_result, has_id, expire_leases, expire_all, is_overdue, is_candidate,
  lease_command, expire_command, ack_command, result_command,
}
use patze_control.Bridge.Controller.{
  OpenClawControllerOptions, Texts, finished, build_command, report_of, truncate_output, execute,
}
use patze_control.Bridge.Poller.{
  arrives, unsent, set_all, load_receipts, Surroundings, World, find_receipt, remember_receipt,
  set_receipt, report_result, execute_and_report, execute_command, tick,
}
use patze_control.Bridge.Once.{
  BridgeStep, ticks, restarts, IsFaithful, world_step, world_run, world_run-IsFaithful,
}
use patze_control.Bridge.Delta.{Bytes, Sent}
use patze_control.Bridge.Growing.{pushes}
use patze_control.Bridge.Allowed.{Starts, only_openclaw_runs}

abbrev plain_texts : Texts
plain_texts = record { byte_length = λ s. 2; first_bytes = λ n s. s; is_blank = λ s. false }

abbrev plain_options : OpenClawControllerOptions
plain_options = record {
  openclaw_bin = "/usr/bin/openclaw";
  openclaw_home_dir = "/home/openclaw";
  max_stdout_bytes = 100;
  max_stderr_bytes = 100;
}

abbrev nightly : BridgeCommandSnapshot
nightly = record {
  target_id = "target-1";
  machine_id = "machine-1";
  target_version = "v1";
  intent = trigger_job;
  args = object (field "jobId" (text "nightly") end);
  created_by = "operator";
  idempotency_key = "key-1";
  approval_required = false;
  policy_version = none;
}

abbrev waiting : BridgeCommandRecord
waiting = record {
  id = "bcmd_1";
  created_at = 5;
  updated_at = 5;
  state = queued;
  lease_owner_machine_id = none;
  lease_until = none;
  lease_attempts = 0;
  execution_attempts = 0;
  approved_at = none;
  approved_by = none;
  rejected_reason = none;
  result = none;
  snapshot = nightly;
}

abbrev first_world : World
first_world = record {
  store = record { commands = waiting ∷ []; file = none };
  journal = record {
    poller = record {
      machine_id = "machine-1";
      lease_ttl_ms = 1000;
      receipts = [];
      receipt_file = none;
    };
    executed = [];
    reported = [];
  };
}

-- A tick whose report reaches the server, and one whose report does not.
abbrev good_tick : ℕ → Surroundings
good_tick now = record {
  texts = plain_texts;
  controller = plain_options;
  poll_fate = arrives;
  ack_fate = arrives;
  result_fate = arrives;
  poll_now = now;
  ack_now = now;
  result_now = now;
  poller_now = now;
  run_child = λ built. finished "ok" "";
  duration = number 0;
}

abbrev lossy_tick : Surroundings
lossy_tick = record (good_tick 10) { result_fate = unsent }

abbrev lossy_day : List BridgeStep
lossy_day = ticks lossy_tick ∷ restarts ∷ ticks (good_tick 5000) ∷ []

abbrev done : BridgeCommandResult
done = record {
  status = result_succeeded;
  exit_code = number 0;
  duration_ms = number 0;
  stdout = "ok";
  stderr = "";
  truncated = false;
  artifact = none;
  duplicate = none;
}

-- The command runs once, and its report gets through at the second attempt.
lossy_day_journal :
    ((world_run first_world lossy_day).journal.executed ≡ ("bcmd_1", done) ∷ [])
    × ((world_run first_world lossy_day).journal.reported
        ≡ ("bcmd_1", record done { duplicate = some true }) ∷ [])
unfolding world_run world_step tick execute_command execute_and_report report_result find_receipt
    remember_receipt set_receipt set_all load_receipts poll ack_running push_result modify has_id
    expire_leases expire_all is_overdue is_candidate lease_command ack_command result_command
    is_foreign_owner expire_command execute report_of build_command truncate_output get lookup_field
lossy_day_journal = (refl, refl)

first_journal-IsFaithful : IsFaithful first_world.journal
first_journal-IsFaithful = record {
  receipts_are_runs = refl;
  saved = refl;
  once = tt;
  justified = tt;
}

world_run-IsFaithful_example : IsFaithful (world_run first_world lossy_day).journal
world_run-IsFaithful_example =
    world_run-IsFaithful first_world lossy_day (rw (lossy_day_journal.0) (omega arith))
      first_journal-IsFaithful

only_openclaw_runs_example :
    Starts plain_texts plain_options
      (λ call. finished call.program "")
      (number 0)
      trigger_job
      nightly.args
only_openclaw_runs_example =
    only_openclaw_runs plain_texts plain_options (λ call. finished call.program "") (number 0)
      trigger_job nightly.args

-- A line that is cut in two, after a post that fails.
abbrev two_cuts : List (Bytes × Bool)
two_cuts = (65 ∷ 66 ∷ [], true) ∷ (67 ∷ 10 ∷ 68 ∷ [], false) ∷ []

abbrev nothing_sent : Sent
nothing_sent = record { offset = 0; lines = [] }

abbrev after_cuts : Bytes × Sent
after_cuts = pushes [] two_cuts nothing_sent
