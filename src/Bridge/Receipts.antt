-- ===== src/Bridge/Receipts.antt =====
-- Receipts and the runs that they remember.
use mathlib.Core.List.{append_assoc, append-nil}
use patze_control.Base.{
  suc, ◌-◌, ◌≤◌, true, false, Option, none, some, String, ◌==◌, eq_iff, List, [], ◌∷◌, ◌++◌, length,
  if◌then◌else◌, ◌≡◌, ◌⊎◌, refl, sym, ap, ◌∙◌, arith,
}
use patze_control.BridgeCommands.Types.{BridgeCommandResult}
use patze_control.Bridge.Poller.{StoredReceipt, find_receipt, set_receipt, set_all, last_receipts}

abbrev pub Runs : Type 0
Runs = List (String × BridgeCommandResult)

-- The result of the run of a command.
unfoldable pub find_run : String → Runs → Option BridgeCommandResult
find_run id [] = none
find_run id (e ∷ es) = let rest = find_run id es in if e.0 == id then some e.1 else rest

-- No command has run twice.
abbrev pub Distinct : Runs → Type 0
Distinct [] = Unit
Distinct (e ∷ es) = (find_run e.0 es ≡ none) × Distinct es

-- A report carries the result of the run of its command, marked as a duplicate or not.
abbrev pub IsJustified : Runs → String × BridgeCommandResult → Type 0
IsJustified executed report =
    (result : BridgeCommandResult) × (find_run report.0 executed ≡ some result)
    × ((report.1 ≡ result) ⊎ (report.1 ≡ record result { duplicate = some true }))

abbrev pub runs_of : List StoredReceipt → Runs
runs_of [] = []
runs_of (r ∷ rs) = (r.command_id, r.result) ∷ runs_of rs

pub runs_of-append : (rs qs : List StoredReceipt) → runs_of (rs ++ qs) ≡ runs_of rs ++ runs_of qs
runs_of-append [] qs = refl
runs_of-append (r ∷ rs) qs = ap (λ l. (r.command_id, r.result) ∷ l) (runs_of-append rs qs)

pub length-runs_of : (rs : List StoredReceipt) → length (runs_of rs) ≡ length rs
length-runs_of [] = refl
length-runs_of (r ∷ rs) = ap suc (length-runs_of rs)

pub find_receipt-some :
    (id : String) (rs : List StoredReceipt) (r : StoredReceipt)
    → find_receipt id rs ≡ some r
    → find_run id (runs_of rs) ≡ some r.result
unfolding find_receipt find_run
find_receipt-some id [] r e = cc
find_receipt-some id (q ∷ qs) r e = ground (arith, find_receipt-some id qs r)

pub find_receipt-none :
    (id : String) (rs : List StoredReceipt)
    → find_receipt id rs ≡ none
    → find_run id (runs_of rs) ≡ none
unfolding find_receipt find_run
find_receipt-none id [] e = refl
find_receipt-none id (q ∷ qs) e = ground (arith, find_receipt-none id qs)

find_receipt-unknown :
    (id : String) (rs : List StoredReceipt)
    → find_run id (runs_of rs) ≡ none
    → find_receipt id rs ≡ none
unfolding find_receipt find_run
find_receipt-unknown id [] e = refl
find_receipt-unknown id (q ∷ qs) e = ground (arith, find_receipt-unknown id qs)

pub find_run-append :
    (id : String) (es fs : Runs) (result : BridgeCommandResult)
    → find_run id es ≡ some result
    → find_run id (es ++ fs) ≡ some result
unfolding find_run
find_run-append id [] fs result e = cc
find_run-append id (x ∷ xs) fs result e = ground (arith, find_run-append id xs fs result)

pub find_run_last :
    (id : String) (es : Runs) (result : BridgeCommandResult)
    → find_run id es ≡ none
    → find_run id (es ++ ((id, result) ∷ [])) ≡ some result
unfolding find_run
find_run_last id [] result e = ground (arith, eq_iff id id)
find_run_last id (x ∷ xs) result e = ground (arith, find_run_last id xs result)

find_run_other :
    (id : String) (es : Runs) (x : String × BridgeCommandResult)
    → find_run id es ≡ none
    → (x.0 == id) ≡ false
    → find_run id (es ++ (x ∷ [])) ≡ none
unfolding find_run
find_run_other id [] x e d = ground arith
find_run_other id (y ∷ ys) x e d = ground (arith, find_run_other id ys x)

differ_sym : (s t : String) → (s == t) ≡ false → (t == s) ≡ false
differ_sym s t e = ground (arith, eq_iff s t, eq_iff t s)

differs_from_first :
    (id : String) (x : String × BridgeCommandResult) (xs : Runs)
    → find_run id (x ∷ xs) ≡ none
    → ((x.0 == id) ≡ false) × (find_run id xs ≡ none)
unfolding find_run
differs_from_first id x xs e = ground arith

pub Distinct-append :
    (es : Runs) (id : String) (result : BridgeCommandResult)
    → Distinct es
    → find_run id es ≡ none
    → Distinct (es ++ ((id, result) ∷ []))
unfolding find_run
Distinct-append [] id result d e = (refl, tt)
Distinct-append (x ∷ xs) id result (d, ds) e =
    let (other, rest) = differs_from_first id x xs e in
    (
      find_run_other x.0 xs (id, result) d (differ_sym x.0 id other),
      Distinct-append xs id result ds rest,
    )

pub set_receipt-new :
    (r : StoredReceipt) (rs : List StoredReceipt)
    → find_receipt r.command_id rs ≡ none
    → set_receipt r rs ≡ rs ++ (r ∷ [])
unfolding set_receipt find_receipt
set_receipt-new r [] e = refl
set_receipt-new r (q ∷ qs) e = ground (arith, set_receipt-new r qs)

differs_from_middle :
    (id : String) (es : Runs) (x : String × BridgeCommandResult) (fs : Runs)
    → find_run id (es ++ (x ∷ fs)) ≡ none
    → (x.0 == id) ≡ false
unfolding find_run
differs_from_middle id [] x fs e = ground arith
differs_from_middle id (y ∷ ys) x fs e = ground (arith, differs_from_middle id ys x fs)

-- A run in the middle of distinct runs is none of those before it.
Distinct-middle :
    (es : Runs) (x : String × BridgeCommandResult) (fs : Runs)
    → Distinct (es ++ (x ∷ fs))
    → find_run x.0 es ≡ none
unfolding find_run
Distinct-middle [] x fs d = refl
Distinct-middle (e ∷ es) x fs (d, ds) =
    let other = differ_sym x.0 e.0 (differs_from_middle e.0 es x fs d) in
    let before = Distinct-middle es x fs ds in ground arith

pub set_all-Distinct :
    (rs acc : List StoredReceipt)
    → Distinct (runs_of acc ++ runs_of rs)
    → set_all rs acc ≡ acc ++ rs
unfolding set_all
set_all-Distinct [] acc d = sym (append-nil acc)
set_all-Distinct (r ∷ rs) acc d =
    let new =
      find_receipt-unknown r.command_id acc
        (Distinct-middle (runs_of acc) (r.command_id, r.result) (runs_of rs) d) in
    rw (set_receipt-new r acc new) (
      set_all-Distinct rs (acc ++ (r ∷ [])) (
        rw
          (
            runs_of-append acc (r ∷ []),
            append_assoc (runs_of acc) ((r.command_id, r.result) ∷ []) (runs_of rs),
          )
          d)
      ∙ append_assoc acc (r ∷ []) rs)

pub last_receipts_all : (rs : List StoredReceipt) → length rs ≤ 500 → last_receipts rs ≡ rs
last_receipts_all rs h =
    let none_dropped : length rs - 500 ≡ 0 = omega arith in rw none_dropped refl
