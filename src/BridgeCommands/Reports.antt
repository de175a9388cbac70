-- ===== src/BridgeCommands/Reports.antt =====
-- Repeated reports of a result, and approvals of a command that a machine already works on.
use mathlib.Core.Path.{subst}
use patze_control.Base.{
  ℕ, zero, suc, Bool, true, Option, none, some, List, [], ◌∷◌, String, ◌==◌, eq_iff, find_index,
  get_elem?, set, ◌≡◌, refl, inl, inr, arith,
}
use patze_control.BridgeCommands.Types.{
  running, queued, BridgeCommandResult, BridgeCommandRecord, ApproveBridgeCommandInput,
}
use patze_control.BridgeCommands.Store.{
  BridgeCommandStore, Outcome, refuse, unchanged, put, modify, modify_at, conclude,
}
use patze_control.BridgeCommands.Methods.{
  approve_command, is_candidate, result_command, push_result, has_id,
}
use patze_control.BridgeCommands.Modify.{IsFirst, find_index-cases}

find_index-set :
    (p : BridgeCommandRecord → Bool) (xs : List BridgeCommandRecord) (i : ℕ)
    (r n : BridgeCommandRecord)
    → IsFirst p xs i r
    → p n ≡ true
    → (find_index p (set xs i n) ≡ some i) × (get_elem? (set xs i n) i ≡ some n)
find_index-set p [] i r n f t = absurd f
find_index-set p (x ∷ xs) zero r n f t = (rw t refl, refl)
find_index-set p (x ∷ xs) (suc i) r n f t =
    let (e, g) = find_index-set p xs i r n f.1 t in (rw (f.0, e) refl, g)

module _ (p : BridgeCommandRecord → Bool) (first again : BridgeCommandRecord → Outcome)
    (stays : (r : BridgeCommandRecord) → first r ≡ unchanged → again r ≡ unchanged)
    (settles : (r n : BridgeCommandRecord)
      → p r ≡ true
      → first r ≡ put n
      → (p n ≡ true) × (again n ≡ unchanged)) where
  modify_twice :
      (s s' : BridgeCommandStore) (n : BridgeCommandRecord)
      → modify p first s ≡ (s', some n)
      → modify p again s' ≡ (s', some n)
  unfolding modify
  modify_twice s s' n h = elim (find_index-cases p s.commands) [
    | inl (e, _) ↦ absurd (none_given (rw (e, modify) at h))
    | inr (i, r, e, g, t, f) ↦
        repeat i r e g t f (first r) refl (rw (g, modify_at) at (rw (e, modify) at h))
  ]
    where
      Fixed : BridgeCommandStore × Option BridgeCommandRecord → Type 0
      Fixed z = modify_at z.0 again (find_index p z.0.commands) ≡ z

      none_given :
          ¬ (◌≡◌ {A = BridgeCommandStore × Option BridgeCommandRecord} (s, none) (s', some n))
      none_given q = cc

      repeat :
          (i : ℕ) (r : BridgeCommandRecord)
          → find_index p s.commands ≡ some i
          → get_elem? s.commands i ≡ some r
          → p r ≡ true
          → IsFirst p s.commands i r
          → (o : Outcome) → first r ≡ o
          → conclude s i r o ≡ (s', some n)
          → modify_at s' again (find_index p s'.commands) ≡ (s', some n)
      repeat i r e g t f refuse d q = absurd (none_given q)
      repeat i r e g t f unchanged d q =
          subst Fixed q (rw (e, modify_at) (rw (g, modify_at) (rw (stays r d) refl)))
      repeat i r e g t f (put m) d q =
          let (found, read) = find_index-set p s.commands i r m f (settles r m t d).0 in
          subst Fixed q
            (rw (found, modify_at) (rw (read, modify_at) (rw ((settles r m t d).1) refl)))

result_command_stays :
    (machine_id : String) (result result' : BridgeCommandResult) (now now' : ℕ)
    (r : BridgeCommandRecord)
    → result_command machine_id result now r ≡ unchanged
    → result_command machine_id result' now' r ≡ unchanged
unfolding result_command
result_command_stays machine_id result result' now now' r e = ground arith

result_command_settles :
    (command_id machine_id : String) (result result' : BridgeCommandResult) (now now' : ℕ)
    (r n : BridgeCommandRecord)
    → has_id command_id r ≡ true
    → result_command machine_id result now r ≡ put n
    → (has_id command_id n ≡ true) × (result_command machine_id result' now' n ≡ unchanged)
unfolding has_id result_command
result_command_settles command_id machine_id result result' now now' r n t e = ground arith

-- Once a report has been answered with a record, any later report of the same machine on the same
-- command is answered with that record and changes nothing.
pub report_twice :
    (command_id machine_id : String) (result result' : BridgeCommandResult) (now now' : ℕ)
    (s s' : BridgeCommandStore) (n : BridgeCommandRecord)
    → push_result command_id machine_id result now s ≡ (s', some n)
    → push_result command_id machine_id result' now' s' ≡ (s', some n)
unfolding push_result
report_twice command_id machine_id result result' now now' s s' n =
    modify_twice (has_id command_id) _ _ (result_command_stays machine_id result result' now now')
      (result_command_settles command_id machine_id result result' now now') s s' n

-- An approval of a command that its machine is already running puts the command back in the queue:
-- it waits for the same machine again, and the report of the run in progress is refused.
pub approve_requeues_running :
    (input : ApproveBridgeCommandInput) (now later : ℕ) (result : BridgeCommandResult)
    (r : BridgeCommandRecord)
    → r.state ≡ running
    → r.snapshot.approval_required ≡ true
    → (r.snapshot.target_id == input.target_id) ≡ true
    → (r.snapshot.target_version == input.target_version) ≡ true
    → (n : BridgeCommandRecord) × (approve_command input now r ≡ put n)
      × (n.state ≡ queued)
      × (is_candidate n.snapshot.machine_id n ≡ true)
      × (result_command r.snapshot.machine_id result later n ≡ refuse)
unfolding approve_command is_candidate result_command
approve_requeues_running input now later result r a b c d = (
  record r {
    state = queued;
    approved_at = some now;
    approved_by = some input.approved_by;
    updated_at = now;
  },
  ground arith,
  refl,
  ground (arith, eq_iff r.snapshot.machine_id r.snapshot.machine_id),
  ground (arith, eq_iff r.snapshot.machine_id r.snapshot.machine_id),
)
