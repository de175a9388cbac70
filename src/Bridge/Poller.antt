-- ===== src/Bridge/Poller.antt =====
-- The control poller of a machine (packages/openclaw-bridge/src/control-poller.ts) and the routes of
-- apps/api-server/src/index.ts that it calls. The network and the command line are parameters.
use patze_control.Base.{
  ℕ, ◌-◌, Bool, true, false, not, ◌&&◌, ◌||◌, Option, none, some, is_some, String, ◌==◌, List, [],
  ◌∷◌, ◌++◌, length, drop, min, leb, if◌then◌else◌,
}
use patze_control.Value.{Value}
use patze_control.BridgeCommands.Types.{BridgeCommandResult, BridgeCommandRecord}
use patze_control.BridgeCommands.Store.{BridgeCommandStore}
use patze_control.BridgeCommands.Methods.{poll, ack_running, push_result}
use patze_control.Bridge.Controller.{Texts, ChildCall, ChildEnd, OpenClawControllerOptions, execute}

pub record StoredReceipt : Type 0 where
  pub command_id : String
  pub machine_id : String
  pub result : BridgeCommandResult
  pub stored_at : ℕ

-- The map of receipts in the order of insertion, and the list that the file holds.
pub record BridgeControlPoller : Type 0 where
  pub machine_id : String
  pub lease_ttl_ms : ℕ
  pub receipts : List StoredReceipt
  pub receipt_file : Option (List StoredReceipt)

unfoldable pub find_receipt : String → List StoredReceipt → Option StoredReceipt
find_receipt id [] = none
find_receipt id (r ∷ rs) =
    let rest = find_receipt id rs in if r.command_id == id then some r else rest

unfoldable pub set_receipt : StoredReceipt → List StoredReceipt → List StoredReceipt
set_receipt r [] = r ∷ []
set_receipt r (q ∷ qs) =
    let rest = set_receipt r qs in if q.command_id == r.command_id then r ∷ qs else q ∷ rest

unfoldable pub set_all : List StoredReceipt → List StoredReceipt → List StoredReceipt
unfolding set_receipt
set_all [] receipts = receipts
set_all (r ∷ rs) receipts = set_all rs (set_receipt r receipts)

-- `loadReceipts` in the constructor, over a file that the poller has written or none.
unfoldable pub load_receipts : BridgeControlPoller → BridgeControlPoller
unfolding set_all
load_receipts poller = elim poller.receipt_file [
  | none ↦ record poller { receipts = [] }
  | some receipts ↦ record poller { receipts = set_all receipts [] }
]

abbrev pub max_saved_receipts : ℕ
max_saved_receipts = 500

abbrev pub last_receipts : List StoredReceipt → List StoredReceipt
last_receipts receipts = drop (length receipts - max_saved_receipts) receipts

-- `rememberReceipt` with `saveReceipts`.
unfoldable pub remember_receipt :
    ℕ → String → BridgeCommandResult → BridgeControlPoller → BridgeControlPoller
unfolding set_receipt
remember_receipt now command_id result poller =
    let receipts =
      set_receipt
        (record {
          command_id = command_id;
          machine_id = poller.machine_id;
          result = result;
          stored_at = now;
        })
        poller.receipts in
    record poller { receipts = receipts; receipt_file = some (last_receipts receipts) }

-- What becomes of a request: the server answers, or it never gets it, or its answer is lost.
pub data Fate : Type 0 where
  arrives unsent unanswered : Fate

abbrev pub reaches : Fate → Bool
reaches unsent = false
reaches _ = true

abbrev pub is_answered : Fate → Bool
is_answered arrives = true
is_answered _ = false

-- `sanitizeOutput`, and what the result route makes of a reported result.
unfoldable pub sanitize_output : Texts → String → ℕ → String × Bool
sanitize_output texts output max_bytes =
    if leb (texts.byte_length output) max_bytes
    then (output, false)
    else (texts.first_bytes max_bytes output, true)

unfoldable pub sanitize_result : Texts → BridgeCommandResult → BridgeCommandResult
unfolding sanitize_output
sanitize_result texts result =
    let out = sanitize_output texts result.stdout 32_768 in
    let err = sanitize_output texts result.stderr 32_768 in
    record result {
      stdout = out.0;
      stderr = err.0;
      truncated = out.1 || err.1 || result.truncated;
      duplicate = elim result.duplicate [ none ↦ none | some d ↦ if d then some true else none ];
    }

-- All that a tick meets outside: the fates of its requests, the times at the server and at the poller,
-- the command line and the measured duration.
pub record Surroundings : Type 0 where
  pub texts : Texts
  pub controller : OpenClawControllerOptions
  pub poll_fate : Fate
  pub ack_fate : Fate
  pub result_fate : Fate
  pub poll_now : ℕ
  pub ack_now : ℕ
  pub result_now : ℕ
  pub poller_now : ℕ
  pub run_child : ChildCall → ChildEnd
  pub duration : Value

-- A poller with the executions that it has started, and its reports that have reached the server.
pub record Journal : Type 0 where
  pub poller : BridgeControlPoller
  pub executed : List (String × BridgeCommandResult)
  pub reported : List (String × BridgeCommandResult)

pub record World : Type 0 where
  pub store : BridgeCommandStore
  pub journal : Journal

-- `pushResult` at the route of the server; the poller goes on in the same way whatever becomes of it.
unfoldable pub report_result : Surroundings → String → BridgeCommandResult → World → World
unfolding sanitize_result
report_result s command_id result world =
    if reaches s.result_fate
    then record {
      store =
          (push_result command_id world.journal.poller.machine_id (sanitize_result s.texts result)
            s.result_now world.store).0;
      journal = record world.journal {
        reported = world.journal.reported ++ ((command_id, result) ∷ []);
      };
    }
    else world

-- The journal behind an execution whose result is remembered.
abbrev pub journal_after : ℕ → String → BridgeCommandResult → Journal → Journal
journal_after now command_id result journal = record journal {
  poller = remember_receipt now command_id result journal.poller;
  executed = journal.executed ++ ((command_id, result) ∷ []);
}

-- The part of `executeCommand` behind the acknowledgement.
unfoldable pub execute_and_report : Surroundings → BridgeCommandRecord → World → World
unfolding report_result execute
execute_and_report s command world =
    let result =
      execute s.texts s.controller s.run_child s.duration command.snapshot.intent
        command.snapshot.args in
    report_result s command.id result
      (record world { journal = journal_after s.poller_now command.id result world.journal })

unfoldable pub execute_command : Surroundings → BridgeCommandRecord → World → World
unfolding find_receipt execute_and_report report_result
execute_command s command world =
    let acked = ack_running command.id world.journal.poller.machine_id s.ack_now world.store in
    elim (find_receipt command.id world.journal.poller.receipts) [
      | some receipt ↦
          report_result s command.id (record receipt.result { duplicate = some true }) world
      | none ↦
          if not (reaches s.ack_fate)
          then world
          else if is_answered s.ack_fate && is_some acked.1
          then execute_and_report s command (record world { store = acked.0 })
          else record world { store = acked.0 }
    ]

-- The route of `poll` bounds the length of the lease. The machine's id is not blank and has no white
-- space around it, which the route would cut off.
abbrev pub poll_route : Surroundings → World → BridgeCommandStore × Option BridgeCommandRecord
poll_route s world =
    poll
      (record {
        machine_id = world.journal.poller.machine_id;
        lease_ttl_ms = min world.journal.poller.lease_ttl_ms 300_000;
        now_ms = s.poll_now;
      })
      world.store

-- `tick` of a poller that is running and has no other tick under way.
unfoldable pub tick : Surroundings → World → World
unfolding execute_command
tick s world =
    let leased = poll_route s world in
    let polled = record world { store = leased.0 } in
    if not (reaches s.poll_fate)
    then world
    else if not (is_answered s.poll_fate)
    then polled
    else elim leased.1 [ none ↦ polled | some command ↦ execute_command s command polled ]
