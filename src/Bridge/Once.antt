-- ===== src/Bridge/Once.antt =====
-- A command runs once, and every report is of its run.
use patze_control.Base.{
  ℕ, ◌≤◌, true, ◌&&◌, none, some, is_some, String, List, [], ◌∷◌, ◌++◌, length, length-append,
  or_else, All, All-append, Bool-cases, Option-cases, ◌≡◌, ◌⊎◌, refl, sym, ap, ◌∙◌, subst, inl, inr,
  arith,
}
use patze_control.BridgeCommands.Types.{BridgeCommandResult, BridgeCommandRecord}
use patze_control.BridgeCommands.Methods.{ack_running}
use patze_control.BridgeCommands.History.{Call, step}
use patze_control.Bridge.Poller.{
  StoredReceipt, find_receipt, set_receipt, load_receipts, remember_receipt, Surroundings, Journal,
  World, journal_after, reaches, is_answered, poll_route, report_result, execute_and_report,
  execute_command, tick,
}
use patze_control.Bridge.Receipts.{
  Runs, find_run, Distinct, IsJustified, runs_of, runs_of-append, length-runs_of, find_receipt-some,
  find_receipt-none, find_run-append, find_run_last, Distinct-append, set_receipt-new,
  set_all-Distinct, last_receipts_all,
}

-- The receipts are the runs that have taken place, in their order, and the file holds them.
pub record IsFaithful (j : Journal) : Type 0 where
  pub receipts_are_runs : runs_of j.poller.receipts ≡ j.executed
  pub saved : or_else j.poller.receipt_file [] ≡ j.poller.receipts
  pub once : Distinct j.executed
  pub justified : All (IsJustified j.executed) j.reported

-- What happens to a poller: it ticks, its process starts anew, or the server is called by others.
pub data BridgeStep : Type 0 where
  ticks : Surroundings → BridgeStep
  restarts : BridgeStep
  is_called : Call → BridgeStep

abbrev pub restart : Journal → Journal
restart j = record j { poller = load_receipts j.poller }

unfoldable pub world_step : World → BridgeStep → World
unfolding tick load_receipts step
world_step w (ticks s) = tick s w
world_step w restarts = record w { journal = restart w.journal }
world_step w (is_called c) = record w { store = step w.store c }

unfoldable pub world_run : World → List BridgeStep → World
unfolding world_step
world_run w [] = w
world_run w (c ∷ cs) = world_run (world_step w c) cs

abbrev with_report : String → BridgeCommandResult → Journal → Journal
with_report id result j = record j { reported = j.reported ++ ((id, result) ∷ []) }

-- What a tick does to the journal: nothing, a report of a receipt, or a run with a report or none.
data Journaled (j : Journal) : Journal → Type 0 where
  idle : Journaled j j
  repeated :
      (id : String) (receipt : StoredReceipt)
      → find_receipt id j.poller.receipts ≡ some receipt
      → Journaled j (with_report id (record receipt.result { duplicate = some true }) j)
  ran :
      (now : ℕ) (id : String) (result : BridgeCommandResult)
      → find_receipt id j.poller.receipts ≡ none
      → Journaled j (journal_after now id result j)
  ran_and_told :
      (now : ℕ) (id : String) (result : BridgeCommandResult)
      → find_receipt id j.poller.receipts ≡ none
      → Journaled j (with_report id result (journal_after now id result j))

execute_command-Journaled :
    (s : Surroundings) (command : BridgeCommandRecord) (w : World)
    → Journaled w.journal (execute_command s command w).journal
unfolding execute_command execute_and_report report_result
execute_command-Journaled s command w =
    elim (Option-cases (find_receipt command.id w.journal.poller.receipts)) [
      | inr (receipt, e) ↦ elim (Bool-cases (reaches s.result_fate)) [
        | inl told ↦ rw (execute_command, e, told) (repeated command.id receipt e)
        | inr lost ↦ rw (execute_command, e, lost) idle
      ]
      | inl e ↦ elim (Bool-cases (reaches s.ack_fate)) [
        | inr unsent ↦ rw (execute_command, e, unsent) idle
        | inl sent ↦
            elim (Bool-cases (
              is_answered s.ack_fate
              && is_some
                  (ack_running command.id w.journal.poller.machine_id s.ack_now w.store).1)) [
                    | inr refusal ↦ rw (execute_command, e, sent, refusal) idle
                    | inl acked ↦ elim (Bool-cases (reaches s.result_fate)) [
                      | inl told ↦
                          rw (execute_command, e, sent, acked, told)
                            (ran_and_told s.poller_now command.id _ e)
                      | inr lost ↦
                          rw (execute_command, e, sent, acked, lost)
                            (ran s.poller_now command.id _ e)
                    ]
                  ]
      ]
    ]

tick-Journaled : (s : Surroundings) (w : World) → Journaled w.journal (tick s w).journal
unfolding tick
tick-Journaled s w = elim (Bool-cases (reaches s.poll_fate)) [
  | inr unsent ↦ rw (tick, unsent) idle
  | inl sent ↦ elim (Bool-cases (is_answered s.poll_fate)) [
    | inr lost ↦ rw (tick, sent, lost) idle
    | inl answered ↦ elim (Option-cases (poll_route s w).1) [
      | inl nothing ↦ rw (tick, sent, answered, nothing) idle
      | inr (command, e) ↦
          rw (tick, sent, answered, e)
            (execute_command-Journaled s command (record w { store = (poll_route s w).0 }))
    ]
  ]
]

report-IsFaithful :
    (j : Journal) (id : String) (result shown : BridgeCommandResult)
    → IsFaithful j
    → find_run id j.executed ≡ some result
    → (shown ≡ result) ⊎ (shown ≡ record result { duplicate = some true })
    → IsFaithful (with_report id shown j)
report-IsFaithful j id result shown f known same = record {
  receipts_are_runs = f.receipts_are_runs;
  saved = f.saved;
  once = f.once;
  justified =
      All-append (IsJustified j.executed) j.reported ((id, shown) ∷ []) f.justified
        ((result, known, same), tt);
}

All-IsJustified-append :
    (es fs : Runs) (rs : List (String × BridgeCommandResult))
    → All (IsJustified es) rs
    → All (IsJustified (es ++ fs)) rs
All-IsJustified-append es fs [] all = tt
All-IsJustified-append es fs (r ∷ rs) ((result, known, same), all) =
    ((result, find_run-append r.0 es fs result known, same), All-IsJustified-append es fs rs all)

unrun_of :
    (j : Journal) (id : String)
    → IsFaithful j
    → find_receipt id j.poller.receipts ≡ none
    → find_run id j.executed ≡ none
unrun_of j id f new =
    subst (λ es. find_run id es ≡ none) f.receipts_are_runs
      (find_receipt-none id j.poller.receipts new)

run-IsFaithful :
    (now : ℕ) (j : Journal) (id : String) (result : BridgeCommandResult)
    → IsFaithful j
    → find_receipt id j.poller.receipts ≡ none
    → length (j.executed ++ ((id, result) ∷ [])) ≤ 500
    → IsFaithful (journal_after now id result j)
unfolding remember_receipt
run-IsFaithful now j id result f new small =
    let rs = j.poller.receipts in
    let r : StoredReceipt = record {
      command_id = id;
      machine_id = j.poller.machine_id;
      result = result;
      stored_at = now;
    } in
    let added : set_receipt r rs ≡ rs ++ (r ∷ []) = set_receipt-new r rs new in
    let same_length : length rs ≡ length j.executed =
      sym (length-runs_of rs) ∙ ap length f.receipts_are_runs in
    record {
      receipts_are_runs =
          ap runs_of added
          ∙ runs_of-append rs (r ∷ [])
          ∙ ap (λ es. es ++ ((id, result) ∷ [])) f.receipts_are_runs;
      saved = rw added (
          last_receipts_all (rs ++ (r ∷ [])) (
            omega (
              arith,
              same_length,
              length-append rs (r ∷ []),
              length-append j.executed ((id, result) ∷ []),
            )));
      once = Distinct-append j.executed id result f.once (unrun_of j id f new);
      justified = All-IsJustified-append j.executed ((id, result) ∷ []) j.reported f.justified;
    }

Journaled-IsFaithful :
    (j j' : Journal) → Journaled j j' → length j'.executed ≤ 500 → IsFaithful j → IsFaithful j'
Journaled-IsFaithful j j' idle small f = f
Journaled-IsFaithful j j' (repeated id receipt known) small f =
    report-IsFaithful j id receipt.result _ f
      (subst (λ es. find_run id es ≡ some receipt.result) f.receipts_are_runs
        (find_receipt-some id j.poller.receipts receipt known))
      (inr refl)
Journaled-IsFaithful j j' (ran now id result new) small f =
    run-IsFaithful now j id result f new small
Journaled-IsFaithful j j' (ran_and_told now id result new) small f =
    report-IsFaithful (journal_after now id result j) id result result
      (run-IsFaithful now j id result f new small)
      (find_run_last id j.executed result (unrun_of j id f new)) (inl refl)

-- A restart reads the receipts back.
load_receipts_same :
    (j : Journal)
    → or_else j.poller.receipt_file [] ≡ j.poller.receipts
    → Distinct (runs_of j.poller.receipts)
    → restart j ≡ j
unfolding load_receipts
load_receipts_same j saved once = elim (Option-cases j.poller.receipt_file) [
  | inl nothing ↦ ground arith
  | inr (rs, e) ↦ ground (arith, set_all-Distinct j.poller.receipts [] once)
]

restart-IsFaithful : (j : Journal) → IsFaithful j → IsFaithful (restart j)
restart-IsFaithful j f =
    subst IsFaithful
      (sym (load_receipts_same j f.saved (subst Distinct (sym f.receipts_are_runs) f.once))) f

Journaled-grows : (j j' : Journal) → Journaled j j' → length j.executed ≤ length j'.executed
Journaled-grows j j' idle = omega arith
Journaled-grows j j' (repeated id receipt known) = omega arith
Journaled-grows j j' (ran now id result new) =
    omega (arith, length-append j.executed ((id, result) ∷ []))
Journaled-grows j j' (ran_and_told now id result new) =
    omega (arith, length-append j.executed ((id, result) ∷ []))

world_step-grows :
    (w : World) (c : BridgeStep)
    → length w.journal.executed ≤ length (world_step w c).journal.executed
unfolding world_step
world_step-grows w (ticks s) = Journaled-grows w.journal _ (tick-Journaled s w)
world_step-grows w restarts = omega arith
world_step-grows w (is_called c) = omega arith

world_run-grows :
    (w : World) (cs : List BridgeStep)
    → length w.journal.executed ≤ length (world_run w cs).journal.executed
unfolding world_run
world_run-grows w [] = omega arith
world_run-grows w (c ∷ cs) =
    omega (arith, world_step-grows w c, world_run-grows (world_step w c) cs)

world_step-IsFaithful :
    (w : World) (c : BridgeStep)
    → length (world_step w c).journal.executed ≤ 500
    → IsFaithful w.journal
    → IsFaithful (world_step w c).journal
unfolding world_step
world_step-IsFaithful w (ticks s) small f =
    Journaled-IsFaithful w.journal _ (tick-Journaled s w) small f
world_step-IsFaithful w restarts small f = restart-IsFaithful w.journal f
world_step-IsFaithful w (is_called c) small f = f

-- Whatever the network loses, however often the bridge process restarts between its ticks and
-- whatever else happens to the server: as long as the poller has run 500 commands at most, no command
-- has run twice, the receipts and their file are exactly the runs, and every report that has reached
-- the server carries the result of the one run of its command, marked as a duplicate or not.
pub world_run-IsFaithful :
    (w : World) (cs : List BridgeStep)
    → length (world_run w cs).journal.executed ≤ 500
    → IsFaithful w.journal
    → IsFaithful (world_run w cs).journal
unfolding world_run
world_run-IsFaithful w [] small f = f
world_run-IsFaithful w (c ∷ cs) small f =
    let before = world_run-grows (world_step w c) cs in
    world_run-IsFaithful (world_step w c) cs small (world_step-IsFaithful w c (omega arith) f)
