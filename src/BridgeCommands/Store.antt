-- ===== src/BridgeCommands/Store.antt =====
-- The operations of apps/api-server/src/bridge-command-store.ts. The clock, the generated id and
-- the JSON text format are arguments; the file is `none` while it does not exist.
use patze_control.Base.{
  ℕ, Bool, true, false, not, ◌&&◌, Option, none, some, List, [], ◌∷◌, ◌++◌, String, ◌==◌, eqb,
  if◌then◌else◌, or_else, find_index, get_elem?, set, map,
}
use patze_control.Value.{Value, is_undefined}
use patze_control.Value.Json.{json_value}
use patze_control.BridgeCommands.Types.{
  BridgeCommandState, queued, leased, running, succeeded, failed, rejected, expired, deadletter,
  BridgeCommandSnapshot, ResultStatus, result_succeeded, result_failed, BridgeCommandResult,
  BridgeCommandRecord, BridgeCommandStoreData,
}

-- The file holds the document that `JSON.stringify` wrote, or a text that does not parse.
pub data FileContent : Type 0 where
  document : BridgeCommandStoreData → FileContent
  malformed : FileContent

-- What `JSON.parse` makes of a command that `JSON.stringify` has written: a field that is `undefined`
-- is left out and so reads as `undefined` again.
abbrev pub read_field : (ℕ → String) → Value → Value
read_field to_iso_string v = if is_undefined v then v else json_value to_iso_string v

abbrev pub read_result : (ℕ → String) → Option BridgeCommandResult → Option BridgeCommandResult
read_result to_iso_string none = none
read_result to_iso_string (some result) = some (record result {
  exit_code = read_field to_iso_string result.exit_code;
  duration_ms = read_field to_iso_string result.duration_ms;
})

abbrev pub read_command : (ℕ → String) → BridgeCommandRecord → BridgeCommandRecord
read_command to_iso_string r = record r {
  snapshot = record r.snapshot { args = read_field to_iso_string r.snapshot.args };
  result = read_result to_iso_string r.result;
}

abbrev pub read_commands :
    (ℕ → String) → Option (List BridgeCommandRecord) → Option (List BridgeCommandRecord)
read_commands to_iso_string none = none
read_commands to_iso_string (some commands) = some (map (read_command to_iso_string) commands)

-- `JSON.parse`: `none` stands for a SyntaxError.
abbrev pub parse : (ℕ → String) → FileContent → Option BridgeCommandStoreData
parse to_iso_string (document d) =
    some (record d { commands = read_commands to_iso_string d.commands })
parse to_iso_string malformed = none

pub record BridgeCommandStore : Type 0 where
  pub commands : List BridgeCommandRecord
  pub file : Option FileContent

abbrev pub is_terminal_state : BridgeCommandState → Bool
is_terminal_state succeeded = true
is_terminal_state failed = true
is_terminal_state rejected = true
is_terminal_state deadletter = true
is_terminal_state queued = false
is_terminal_state leased = false
is_terminal_state running = false
is_terminal_state expired = false

abbrev pub is_leased_or_running : BridgeCommandState → Bool
is_leased_or_running leased = true
is_leased_or_running running = true
is_leased_or_running _ = false

abbrev pub is_running : BridgeCommandState → Bool
is_running running = true
is_running _ = false

abbrev pub is_queued_or_expired : BridgeCommandState → Bool
is_queued_or_expired queued = true
is_queued_or_expired expired = true
is_queued_or_expired _ = false

abbrev pub is_succeeded_or_failed : BridgeCommandState → Bool
is_succeeded_or_failed succeeded = true
is_succeeded_or_failed failed = true
is_succeeded_or_failed _ = false

abbrev pub state_name : BridgeCommandState → String
state_name queued = "queued"
state_name leased = "leased"
state_name running = "running"
state_name succeeded = "succeeded"
state_name failed = "failed"
state_name rejected = "rejected"
state_name expired = "expired"
state_name deadletter = "deadletter"

abbrev pub status_state : ResultStatus → BridgeCommandState
status_state result_succeeded = succeeded
status_state result_failed = failed

-- `owner && owner !== machineId`: an empty text counts as no owner.
unfoldable pub is_foreign_owner : Option String → String → Bool
is_foreign_owner none machine_id = false
is_foreign_owner (some owner) machine_id = not (owner == "") && not (owner == machine_id)

abbrev pub is_missing {ℓ} : {A : Type ℓ} → Option A → Bool
is_missing none = true
is_missing (some _) = false

-- What a method does with the command that it found: return null, return it as it is, or store a
-- new version and return that.
pub data Outcome : Type 0 where
  refuse : Outcome
  unchanged : Outcome
  put : BridgeCommandRecord → Outcome

abbrev pub save : List BridgeCommandRecord → BridgeCommandStore
save commands = record {
  commands = commands;
  file = some (document (record { version = 1; commands = some commands }));
}

abbrev pub parsed_commands : Option BridgeCommandStoreData → List BridgeCommandRecord
parsed_commands none = []
parsed_commands (some parsed) =
    if not (eqb parsed.version 1) then [] else or_else parsed.commands []

unfoldable pub load : (ℕ → String) → Option FileContent → BridgeCommandStore
unfolding json_value
load to_iso_string none = record { commands = []; file = none }
load to_iso_string (some raw) = record {
  commands = parsed_commands (parse to_iso_string raw);
  file = some raw;
}

unfoldable pub create :
    String
    → ℕ
    → BridgeCommandSnapshot
    → BridgeCommandStore
    → BridgeCommandStore × BridgeCommandRecord
create fresh_id now snapshot store = (save (store.commands ++ (new ∷ [])), new)
  where
    new : BridgeCommandRecord
    new = record {
      id = fresh_id;
      created_at = now;
      updated_at = now;
      state = if snapshot.approval_required then queued else queued;
      lease_owner_machine_id = none;
      lease_until = none;
      lease_attempts = 0;
      execution_attempts = 0;
      approved_at = none;
      approved_by = none;
      rejected_reason = none;
      result = none;
      snapshot = snapshot;
    }

-- `findIndex`, the read at the index, and the write back.
abbrev pub conclude :
    BridgeCommandStore
    → ℕ
    → BridgeCommandRecord
    → Outcome
    → BridgeCommandStore × Option BridgeCommandRecord
conclude store idx existing refuse = (store, none)
conclude store idx existing unchanged = (store, some existing)
conclude store idx existing (put next) = (save (set store.commands idx next), some next)

abbrev pub modify_at :
    BridgeCommandStore
    → (BridgeCommandRecord → Outcome)
    → Option ℕ
    → BridgeCommandStore × Option BridgeCommandRecord
modify_at store decide none = (store, none)
modify_at store decide (some idx) = elim (get_elem? store.commands idx) [
  | none ↦ (store, none)
  | some existing ↦ conclude store idx existing (decide existing)
]

unfoldable pub modify :
    (BridgeCommandRecord → Bool)
    → (BridgeCommandRecord → Outcome)
    → BridgeCommandStore
    → BridgeCommandStore × Option BridgeCommandRecord
modify wanted decide store = modify_at store decide (find_index wanted store.commands)
