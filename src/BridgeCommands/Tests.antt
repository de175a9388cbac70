-- ===== src/BridgeCommands/Tests.antt =====
-- The theorems about bridge commands at concrete inputs.
use patze_control.Base.{
  ◌≤◌, min, true, false, none, some, List, [], ◌∷◌, ◌++◌, All, length, keep, ◌≡◌, refl, arith,
}
use mathlib.Core.List.{Perm}
use patze_control.Value.{object, end, undefined}
use patze_control.BridgeCommands.Types.{
  queued, leased, running, succeeded, run_command, BridgeCommandSnapshot, result_succeeded,
  BridgeCommandResult, BridgeCommandRecord, BridgeCommandFilter, ApproveBridgeCommandInput,
  PollBridgeCommandInput,
}
use patze_control.Value.Json.{is_json}
use patze_control.BridgeCommands.Store.{
  document, BridgeCommandStore, put, refuse, load, modify, create, is_foreign_owner,
}
use patze_control.BridgeCommands.Methods.{
  approve, poll, ack_running, renew_lease, push_result, expire_leases, expire_all, is_overdue,
  approve_command, result_command, ack_command, is_candidate, has_id, list, list_limit, is_listed,
  lease_command,
}
use patze_control.BridgeCommands.Modify.{Extends}
use patze_control.BridgeCommands.Soundness.{IsSound}
use patze_control.BridgeCommands.History.{
  Call, creates, approves, polls, acks, step, run, AllSound, run-AllSound,
}
use patze_control.BridgeCommands.Lifecycle.{acking, written, ◌⟶◌, written-⟶, Advances, run-Advances}
use patze_control.BridgeCommands.Polling.{
  PollGives, poll_serves-IsFirst, poll_leaves_no_overdue, foreign_machine_refused,
}
use patze_control.BridgeCommands.Reports.{approve_requeues_running}
use patze_control.BridgeCommands.Persistence.{load-run}
use patze_control.BridgeCommands.Listing.{IsNewestFirst, list_lem}

abbrev job : BridgeCommandSnapshot
job = record {
  target_id = "target-1";
  machine_id = "machine-1";
  target_version = "v1";
  intent = run_command;
  args = object end;
  created_by = "operator";
  idempotency_key = "key-1";
  approval_required = true;
  policy_version = none;
}

abbrev free_job : BridgeCommandSnapshot
free_job = record job { approval_required = false }

abbrev done : BridgeCommandResult
done = record {
  status = result_succeeded;
  exit_code = undefined;
  duration_ms = undefined;
  stdout = "ok";
  stderr = "";
  truncated = false;
  artifact = none;
  duplicate = none;
}

abbrev approval : ApproveBridgeCommandInput
approval = record {
  command_id = "bcmd_1";
  target_id = "target-1";
  target_version = "v1";
  approved_by = "admin";
}

abbrev polling : PollBridgeCommandInput
polling = record { machine_id = "machine-1"; lease_ttl_ms = 1000; now_ms = 20 }

abbrev all_commands : BridgeCommandFilter
all_commands = record { target_id = none; machine_id = none; state = none; limit = none }

abbrev morning : List Call
morning =
    creates "bcmd_1" 5 job
    ∷ approves approval 10
    ∷ polls polling
    ∷ acks "bcmd_1" "machine-1" 30
    ∷ []

abbrev empty_store : BridgeCommandStore
empty_store = record { commands = []; file = none }

abbrev running_command : BridgeCommandRecord
running_command = record {
  id = "bcmd_1";
  created_at = 5;
  updated_at = 30;
  state = running;
  lease_owner_machine_id = some "machine-1";
  lease_until = some 1020;
  lease_attempts = 1;
  execution_attempts = 1;
  approved_at = some 10;
  approved_by = some "admin";
  rejected_reason = none;
  result = none;
  snapshot = job;
}

-- The calls of a morning bring a command to its run.
morning_runs : (run empty_store morning).commands ≡ running_command ∷ []
unfolding run step create approve poll ack_running modify has_id expire_leases expire_all is_overdue
    approve_command is_candidate lease_command ack_command is_foreign_owner
morning_runs = refl

abbrev busy_store : BridgeCommandStore
busy_store = record { commands = running_command ∷ []; file = none }

running_command-IsSound : IsSound running_command
running_command-IsSound = ground arith

run-AllSound_example : AllSound (run busy_store morning)
run-AllSound_example = run-AllSound busy_store morning (running_command-IsSound, tt)

written-⟶_example : leased ⟶ running
written-⟶_example =
    written-⟶ (acking "machine-1") 30 (record running_command { state = leased })
      (record running_command { execution_attempts = 2 })
      (unfold written ack_command is_foreign_owner in refl)

run-Advances_example : Extends Advances busy_store.commands (run busy_store morning).commands
run-Advances_example = run-Advances busy_store morning

poll_serves-IsFirst_example :
    PollGives polling (expire_leases polling.now_ms busy_store).commands (poll polling busy_store)
poll_serves-IsFirst_example = poll_serves-IsFirst polling busy_store

poll_leaves_no_overdue_example :
    All (λ r. is_overdue 20 r ≡ false) (poll polling busy_store).0.commands
poll_leaves_no_overdue_example = poll_leaves_no_overdue polling busy_store (omega arith)

foreign_machine_refused_example :
    (ack_running "bcmd_1" "machine-2" 40 busy_store ≡ (busy_store, none))
    × (renew_lease "bcmd_1" "machine-2" 1000 40 busy_store ≡ (busy_store, none))
    × (push_result "bcmd_1" "machine-2" done 40 busy_store ≡ (busy_store, none))
foreign_machine_refused_example =
    foreign_machine_refused "bcmd_1" "machine-2" done 1000 40 busy_store
      ((running_command-IsSound, λ e. refl), tt)

abbrev finished_command : BridgeCommandRecord
finished_command = record running_command {
  state = succeeded;
  lease_until = none;
  result = some done;
  updated_at = 40;
}

abbrev finished_store : BridgeCommandStore
finished_store = record {
  commands = finished_command ∷ [];
  file = some (document (record { version = 1; commands = some (finished_command ∷ []) }));
}

approve_requeues_running_example :
    (n : BridgeCommandRecord) × (approve_command approval 50 running_command ≡ put n)
    × (n.state ≡ queued)
    × (is_candidate n.snapshot.machine_id n ≡ true)
    × (result_command "machine-1" done 60 n ≡ refuse)
approve_requeues_running_example =
    approve_requeues_running approval 50 60 done running_command refl refl refl refl

list_lem_example :
    (cut : List BridgeCommandRecord) × Perm
      (list all_commands busy_store ++ cut)
      (keep (is_listed all_commands) busy_store.commands)
    × IsNewestFirst (list all_commands busy_store ++ cut)
    × (length (list all_commands busy_store)
        ≡ min (list_limit none) (length (list all_commands busy_store ++ cut)))
    × (1 ≤ list_limit none)
    × (list_limit none ≤ 500)
list_lem_example = list_lem all_commands busy_store

load-run_example :
    load (λ t. "2026") (run (load (λ t. "2026") none) morning).file
    ≡ run (load (λ t. "2026") none) morning
unfolding is_json
load-run_example = load-run (λ t. "2026") morning (refl, (tt, (tt, (tt, tt))))
