-- ===== src/BridgeCommands/Polling.antt =====
-- Which command `poll` hands out, and what is left of old leases.
use mathlib.Core.Option.{some-injective}
use mathlib.Core.Path.{subst}
use patze_control.Base.{
  ℕ, zero, suc, ◌<◌, Bool, true, false, Option, none, some, List, [], ◌∷◌, String, ◌==◌, All, ◌+◌,
  is_some, take, set, eq_iff, Bool-cases, get_elem?, if◌then◌else◌, leb, ◌≡◌, refl, ◌⊎◌, inl, inr,
  arith,
}
use patze_control.BridgeCommands.Types.{
  queued, leased, expired, deadletter, BridgeCommandResult, BridgeCommandRecord,
  PollBridgeCommandInput, deadletter_expired_attempts,
}
use patze_control.BridgeCommands.Store.{BridgeCommandStore, Outcome, refuse, put, modify, modify_at}
use patze_control.BridgeCommands.Methods.{
  is_candidate, lease_command, ack_command, renew_command, result_command, is_overdue,
  expire_command, expire_all, expire_leases, poll, ack_running, renew_lease, push_result, has_id,
}
use patze_control.BridgeCommands.Modify.{
  IsFirst, NoneSuch, find_index-cases, modify-All, commands-expire_leases,
}
use patze_control.BridgeCommands.Soundness.{IsSound}

-- The counters of a sound command make the test on executions redundant: a lapsed lease buries the
-- command exactly at its third lease.
pub expire_at_third_lease :
    (now : ℕ) (r : BridgeCommandRecord)
    → IsSound r
    → (expire_command now r).state
      ≡ (if leb deadletter_expired_attempts r.lease_attempts then deadletter else expired)
unfolding expire_command
expire_at_third_lease now r sound = ground arith

modify_refused :
    (p : BridgeCommandRecord → Bool) (decide : BridgeCommandRecord → Outcome)
    (s : BridgeCommandStore)
    → All (λ r. p r ≡ true → decide r ≡ refuse) s.commands
    → modify p decide s ≡ (s, none)
unfolding modify
modify_refused p decide s h = elim (find_index-cases p s.commands) [
  | inl (e, _) ↦ rw (e, modify) refl
  | inr (i, r, e, g, t, _) ↦
      rw (e, modify) (rw (g, modify_at) (rw (All-at s.commands i r h g t) refl))
]
  where
    All-at :
        (xs : List BridgeCommandRecord) (i : ℕ) (r : BridgeCommandRecord)
        → All (λ r. p r ≡ true → decide r ≡ refuse) xs
        → get_elem? xs i ≡ some r
        → p r ≡ true
        → decide r ≡ refuse
    All-at [] i r h g t = cc
    All-at (x ∷ xs) zero r h g t =
        subst (λ z. p z ≡ true → decide z ≡ refuse) (some-injective _ _ g) h.0 t
    All-at (x ∷ xs) (suc i) r h g t = All-at xs i r h.1 g t

-- A command that a machine may be handed.
pub record Waits (machine_id : String) (r : BridgeCommandRecord) : Type 0 where
  pub machine : r.snapshot.machine_id ≡ machine_id
  pub open_state : (r.state ≡ queued) ⊎ (r.state ≡ expired)
  pub approved : r.snapshot.approval_required ≡ true → is_some r.approved_at ≡ true

is_candidate→Waits :
    (machine_id : String) (r : BridgeCommandRecord)
    → is_candidate machine_id r ≡ true
    → Waits machine_id r
unfolding is_candidate
is_candidate→Waits machine_id r e = ground (arith, eq_iff r.snapshot.machine_id machine_id)

Waits→is_candidate :
    (machine_id : String) (r : BridgeCommandRecord)
    → Waits machine_id r
    → is_candidate machine_id r ≡ true
unfolding is_candidate
Waits→is_candidate machine_id r w =
    let machine = w.machine in
    let open_state = w.open_state in
    let approved = w.approved in ground (arith, eq_iff r.snapshot.machine_id machine_id)

-- None of the commands waits for the machine.
abbrev pub NoneWaits : String → List BridgeCommandRecord → Type 0
NoneWaits machine_id rs = All (λ r. Waits machine_id r → ⊥) rs

NoneSuch→NoneWaits :
    (machine_id : String) (rs : List BridgeCommandRecord)
    → NoneSuch (is_candidate machine_id) rs
    → NoneWaits machine_id rs
NoneSuch→NoneWaits machine_id [] h = tt
NoneSuch→NoneWaits machine_id (r ∷ rs) (other, h) =
    (λ w. cc (other, Waits→is_candidate machine_id r w), NoneSuch→NoneWaits machine_id rs h)

IsFirst→NoneSuch :
    (p : BridgeCommandRecord → Bool) (rs : List BridgeCommandRecord) (i : ℕ)
    (r : BridgeCommandRecord)
    → IsFirst p rs i r
    → NoneSuch p (take i rs)
IsFirst→NoneSuch p [] i r f = absurd f
IsFirst→NoneSuch p (x ∷ rs) zero r f = tt
IsFirst→NoneSuch p (x ∷ rs) (suc i) r (other, f) = (other, IsFirst→NoneSuch p rs i r f)

-- `n` is the command `r`, leased to the machine that asked.
pub record IsLeaseOf (input : PollBridgeCommandInput) (r n : BridgeCommandRecord) : Type 0 where
  pub id : n.id ≡ r.id
  pub snapshot : n.snapshot ≡ r.snapshot
  pub state : n.state ≡ leased
  pub owner : n.lease_owner_machine_id ≡ some input.machine_id
  pub until : n.lease_until ≡ some (input.now_ms + input.lease_ttl_ms)
  pub counted : n.lease_attempts ≡ r.lease_attempts + 1
  pub not_run : n.execution_attempts ≡ r.execution_attempts

-- What a poll over these commands leaves and answers.
abbrev pub PollGives :
    PollBridgeCommandInput
    → List BridgeCommandRecord
    → BridgeCommandStore × Option BridgeCommandRecord
    → Type 0
PollGives input rs given =
    ((given.1 ≡ none) × (given.0.commands ≡ rs) × NoneWaits input.machine_id rs)
    ⊎ ((i : ℕ) × (r : BridgeCommandRecord) × (n : BridgeCommandRecord) × (given.1 ≡ some n)
        × (get_elem? rs i ≡ some r)
        × Waits input.machine_id r
        × NoneWaits input.machine_id (take i rs)
        × IsLeaseOf input r n
        × (given.0.commands ≡ set rs i n))

-- Once the leases that have run out are expired, `poll` hands out the first command, in the order of
-- creation, that is queued or expired, belongs to the machine that asks and has the approval that it
-- needs; it is leased to that machine until the lease time is over, and all others stay as they are.
-- The answer is null exactly where no command waits so.
pub poll_serves-IsFirst :
    (input : PollBridgeCommandInput) (s : BridgeCommandStore)
    → PollGives input (expire_leases input.now_ms s).commands (poll input s)
unfolding poll modify
poll_serves-IsFirst input s =
    let rs = (expire_leases input.now_ms s).commands in
    elim (find_index-cases (is_candidate input.machine_id) rs) [
      | inl (e, h) ↦ rw (e, modify) (inl (refl, refl, NoneSuch→NoneWaits input.machine_id rs h))
      | inr (i, r, e, g, t, f) ↦
          rw (e, modify)
            (rw (g, modify_at)
              (unfold lease_command in
                inr (
                  i,
                  r,
                  _,
                  refl,
                  g,
                  is_candidate→Waits input.machine_id r t,
                  NoneSuch→NoneWaits input.machine_id (take i rs)
                      (IsFirst→NoneSuch (is_candidate input.machine_id) rs i r f),
                  record {
                    id = refl;
                    snapshot = refl;
                    state = refl;
                    owner = refl;
                    until = refl;
                    counted = refl;
                    not_run = refl;
                  },
                  refl,
                )))
    ]

expire_all-fresh :
    (now : ℕ) (xs : List BridgeCommandRecord)
    → All (λ r. is_overdue now r ≡ false) (expire_all now xs).0
unfolding expire_all
expire_all-fresh now [] = tt
expire_all-fresh now (x ∷ xs) = elim (Bool-cases (is_overdue now x)) [
  | inl o ↦ rw o (expired_fresh x, expire_all-fresh now xs)
  | inr o ↦ rw o (o, expire_all-fresh now xs)
]
  where
    expired_fresh : (r : BridgeCommandRecord) → is_overdue now (expire_command now r) ≡ false
    expired_fresh r = unfold is_overdue expire_command in ground arith

lease_command-fresh :
    (input : PollBridgeCommandInput) (r n : BridgeCommandRecord)
    → 0 < input.lease_ttl_ms
    → lease_command input r ≡ put n
    → is_overdue input.now_ms n ≡ false
unfolding lease_command is_overdue
lease_command-fresh input r n h e = ground arith

-- After a poll with a positive lease time no command holds a lease that has run out.
pub poll_leaves_no_overdue :
    (input : PollBridgeCommandInput) (s : BridgeCommandStore)
    → 0 < input.lease_ttl_ms
    → All (λ r. is_overdue input.now_ms r ≡ false) (poll input s).0.commands
unfolding poll
poll_leaves_no_overdue input s h =
    modify-All (λ r. is_overdue input.now_ms r ≡ false) _ _
      (λ r n t k e. lease_command-fresh input r n h e) _
      (rw (commands-expire_leases input.now_ms s) (expire_all-fresh input.now_ms s.commands))

-- What makes a command belong to other machines than `machine_id`.
abbrev pub IsForeign : String → String → BridgeCommandRecord → Type 0
IsForeign command_id machine_id r =
    IsSound r × ((r.id == command_id) ≡ true → (r.snapshot.machine_id == machine_id) ≡ false)

All-imp :
    (P Q : BridgeCommandRecord → Type 0)
    → ((r : BridgeCommandRecord) → P r → Q r)
    → (xs : List BridgeCommandRecord) → All P xs
    → All Q xs
All-imp P Q f [] h = tt
All-imp P Q f (x ∷ xs) h = (f x h.0, All-imp P Q f xs h.1)

renew_foreign :
    (machine_id : String) (ttl now : ℕ) (r : BridgeCommandRecord)
    → IsSound r
    → (r.snapshot.machine_id == machine_id) ≡ false
    → renew_command machine_id ttl now r ≡ refuse
unfolding renew_command
renew_foreign machine_id ttl now r sound m = ground arith

ack_foreign :
    (machine_id : String) (now : ℕ) (r : BridgeCommandRecord)
    → (r.snapshot.machine_id == machine_id) ≡ false
    → ack_command machine_id now r ≡ refuse
unfolding ack_command
ack_foreign machine_id now r m = rw m refl

report_foreign :
    (machine_id : String) (result : BridgeCommandResult) (now : ℕ) (r : BridgeCommandRecord)
    → (r.snapshot.machine_id == machine_id) ≡ false
    → result_command machine_id result now r ≡ refuse
unfolding result_command
report_foreign machine_id result now r m = rw m refl

-- A machine that a command is not meant for can neither acknowledge it, nor renew its lease, nor
-- report a result: the answer is null and the store stays as it is.
pub foreign_machine_refused :
    (command_id machine_id : String) (result : BridgeCommandResult) (ttl now : ℕ)
    (s : BridgeCommandStore)
    → All (IsForeign command_id machine_id) s.commands
    → (ack_running command_id machine_id now s ≡ (s, none))
      × (renew_lease command_id machine_id ttl now s ≡ (s, none))
      × (push_result command_id machine_id result now s ≡ (s, none))
unfolding ack_running renew_lease push_result has_id
foreign_machine_refused command_id machine_id result ttl now s h = (
  modify_refused _ _ s (All-imp _ _ (λ r f t. ack_foreign machine_id now r (f.1 t)) s.commands h),
  modify_refused _ _ s
      (All-imp _ _ (λ r f t. renew_foreign machine_id ttl now r f.0 (f.1 t)) s.commands h),
  modify_refused _ _ s
      (All-imp _ _ (λ r f t. report_foreign machine_id result now r (f.1 t)) s.commands h),
)
