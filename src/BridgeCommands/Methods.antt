-- ===== src/BridgeCommands/Methods.antt =====
-- The public methods of BridgeCommandStore that find one command and change it, and `list`.
use patze_control.Base.{
  ℕ, ◌+◌, min, max, Bool, true, false, not, ◌&&◌, ◌||◌, Option, none, some, List, [], ◌∷◌, String,
  ◌==◌, leb, ltb, if◌then◌else◌, is_text, or_else, find, keep, take,
}
use patze_control.BridgeCommands.Types.{
  BridgeCommandState, queued, leased, running, rejected, expired, deadletter, BridgeCommandResult,
  BridgeCommandRecord, BridgeCommandFilter, ApproveBridgeCommandInput, PollBridgeCommandInput,
  max_default_list, deadletter_failed_attempts, deadletter_expired_attempts,
}
use patze_control.BridgeCommands.Store.{
  BridgeCommandStore, is_terminal_state, is_leased_or_running, is_running, is_queued_or_expired,
  is_succeeded_or_failed, state_name, status_state, is_foreign_owner, is_missing, Outcome, refuse,
  unchanged, put, save, modify,
}

unfoldable pub approve_command : ApproveBridgeCommandInput → ℕ → BridgeCommandRecord → Outcome
approve_command input now existing =
    if not (existing.snapshot.target_id == input.target_id)
    then refuse
    else if not (existing.snapshot.target_version == input.target_version)
    then refuse
    else if not existing.snapshot.approval_required
    then unchanged
    else if is_terminal_state existing.state
    then unchanged
    else put (record existing {
      state = queued;
      approved_at = some now;
      approved_by = some input.approved_by;
      updated_at = now;
    })

unfoldable pub reject_command : String → ℕ → BridgeCommandRecord → Outcome
reject_command reason now existing =
    if is_terminal_state existing.state
    then unchanged
    else put (record existing { state = rejected; rejected_reason = some reason; updated_at = now })

-- The test of `poll`'s `findIndex`.
unfoldable pub is_candidate : String → BridgeCommandRecord → Bool
is_candidate machine_id command =
    if not (command.snapshot.machine_id == machine_id)
    then false
    else if not (is_queued_or_expired command.state)
    then false
    else if command.snapshot.approval_required && is_missing command.approved_at
    then false
    else true

unfoldable pub lease_command : PollBridgeCommandInput → BridgeCommandRecord → Outcome
lease_command input existing = put (record existing {
  state = leased;
  lease_owner_machine_id = some input.machine_id;
  lease_until = some (input.now_ms + input.lease_ttl_ms);
  lease_attempts = existing.lease_attempts + 1;
  updated_at = input.now_ms;
})

unfoldable pub ack_command : String → ℕ → BridgeCommandRecord → Outcome
ack_command machine_id now existing =
    if not (existing.snapshot.machine_id == machine_id)
    then refuse
    else if not (is_leased_or_running existing.state)
    then refuse
    else if is_foreign_owner existing.lease_owner_machine_id machine_id
    then refuse
    else put (record existing {
      state = running;
      lease_owner_machine_id = some machine_id;
      execution_attempts =
          existing.execution_attempts + (if is_running existing.state then 0 else 1);
      updated_at = now;
    })

unfoldable pub renew_command : String → ℕ → ℕ → BridgeCommandRecord → Outcome
renew_command machine_id lease_ttl_ms now existing =
    if not (is_text existing.lease_owner_machine_id machine_id)
    then refuse
    else if not (is_leased_or_running existing.state)
    then refuse
    else put (record existing { lease_until = some (now + lease_ttl_ms); updated_at = now })

unfoldable pub result_command : String → BridgeCommandResult → ℕ → BridgeCommandRecord → Outcome
result_command machine_id result now existing =
    if not (existing.snapshot.machine_id == machine_id)
    then refuse
    else if is_succeeded_or_failed existing.state
    then unchanged
    else if not (is_leased_or_running existing.state)
    then refuse
    else if is_foreign_owner existing.lease_owner_machine_id machine_id
    then refuse
    else put (record existing {
      state = status_state result.status;
      lease_owner_machine_id = some machine_id;
      lease_until = none;
      result = some result;
      updated_at = now;
    })

abbrev pub lease_passed : ℕ → Option ℕ → Bool
lease_passed now none = false
lease_passed now (some until) = not (ltb now until)

-- The tests of `expireLeases` that skip a command.
unfoldable pub is_overdue : ℕ → BridgeCommandRecord → Bool
is_overdue now command = is_leased_or_running command.state && lease_passed now command.lease_until

unfoldable pub expire_command : ℕ → BridgeCommandRecord → BridgeCommandRecord
expire_command now command = record command {
  state = if should_deadletter then deadletter else expired;
  lease_owner_machine_id = none;
  lease_until = none;
  updated_at = now;
}
  where
    should_deadletter : Bool
    should_deadletter =
        leb deadletter_failed_attempts command.execution_attempts
        || leb deadletter_expired_attempts command.lease_attempts

-- The loop of `expireLeases`, with its flag `changed`.
unfoldable pub expire_all : ℕ → List BridgeCommandRecord → List BridgeCommandRecord × Bool
expire_all now [] = ([], false)
expire_all now (command ∷ rest) =
    let (rest', changed) = expire_all now rest in
    if is_overdue now command
    then (expire_command now command ∷ rest', true)
    else (command ∷ rest', changed)

unfoldable pub has_id : String → BridgeCommandRecord → Bool
has_id command_id command = command.id == command_id

unfoldable pub expire_leases : ℕ → BridgeCommandStore → BridgeCommandStore
expire_leases now store =
    let (commands, changed) = expire_all now store.commands in
    if changed then save commands else store

unfoldable pub approve :
    ApproveBridgeCommandInput
    → ℕ
    → BridgeCommandStore
    → BridgeCommandStore × Option BridgeCommandRecord
unfolding has_id
approve input now = modify (has_id input.command_id) (approve_command input now)

unfoldable pub reject :
    String → String → ℕ → BridgeCommandStore → BridgeCommandStore × Option BridgeCommandRecord
unfolding has_id
reject command_id reason now = modify (has_id command_id) (reject_command reason now)

unfoldable pub poll :
    PollBridgeCommandInput → BridgeCommandStore → BridgeCommandStore × Option BridgeCommandRecord
poll input store =
    modify (is_candidate input.machine_id) (lease_command input) (expire_leases input.now_ms store)

unfoldable pub ack_running :
    String → String → ℕ → BridgeCommandStore → BridgeCommandStore × Option BridgeCommandRecord
unfolding has_id
ack_running command_id machine_id now = modify (has_id command_id) (ack_command machine_id now)

unfoldable pub renew_lease :
    String → String → ℕ → ℕ → BridgeCommandStore → BridgeCommandStore × Option BridgeCommandRecord
unfolding has_id
renew_lease command_id machine_id lease_ttl_ms now =
    modify (has_id command_id) (renew_command machine_id lease_ttl_ms now)

unfoldable pub push_result :
    String
    → String
    → BridgeCommandResult
    → ℕ
    → BridgeCommandStore
    → BridgeCommandStore × Option BridgeCommandRecord
unfolding has_id
push_result command_id machine_id result now =
    modify (has_id command_id) (result_command machine_id result now)

unfoldable pub get : String → BridgeCommandStore → Option BridgeCommandRecord
unfolding has_id
get command_id store = find (has_id command_id) store.commands

-- `filter?.targetId && …`: an absent or empty text selects everything.
abbrev pub selects : Option String → String → Bool
selects none actual = true
selects (some wanted) actual = wanted == "" || actual == wanted

abbrev pub selects_state : Option BridgeCommandState → BridgeCommandState → Bool
selects_state none actual = true
selects_state (some wanted) actual = state_name actual == state_name wanted

unfoldable pub is_listed : BridgeCommandFilter → BridgeCommandRecord → Bool
is_listed filter command =
    if not (selects filter.target_id command.snapshot.target_id)
    then false
    else if not (selects filter.machine_id command.snapshot.machine_id)
    then false
    else if not (selects_state filter.state command.state)
    then false
    else true

-- `Array.prototype.sort` is stable; `goes_after a b` says that the comparison puts `a` behind `b`.
module _ (goes_after : BridgeCommandRecord → BridgeCommandRecord → Bool) where
  unfoldable pub insert_sorted :
      BridgeCommandRecord → List BridgeCommandRecord → List BridgeCommandRecord
  insert_sorted a [] = a ∷ []
  insert_sorted a (b ∷ bs) =
      let rest = insert_sorted a bs in if goes_after a b then b ∷ rest else a ∷ b ∷ bs

  unfoldable pub sort : List BridgeCommandRecord → List BridgeCommandRecord
  sort [] = []
  sort (a ∷ as') = insert_sorted a (sort as')

unfoldable pub list_limit : Option ℕ → ℕ
list_limit limit = max 1 (min (or_else limit max_default_list) 500)

abbrev pub is_older : BridgeCommandRecord → BridgeCommandRecord → Bool
is_older a b = ltb a.created_at b.created_at

-- Newest first: `b.createdAt.localeCompare(a.createdAt)` orders ISO texts as their instants.
unfoldable pub list : BridgeCommandFilter → BridgeCommandStore → List BridgeCommandRecord
list filter store =
    take (list_limit filter.limit) (sort is_older (keep (is_listed filter) store.commands))
