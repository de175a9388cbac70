-- ===== src/BridgeCommands/Lifecycle.antt =====
-- What the life of one command looks like: the permitted edges of its state, and what never
-- changes or only grows.
use mathlib.Core.Path.{subst}
use patze_control.Base.{
  ℕ, ◌≤◌, Bool, true, false, List, [], ◌∷◌, String, if◌then◌else◌, is_some, ◌≡◌, refl, sym, ◌∙◌,
  arith,
}
use patze_control.BridgeCommands.Types.{
  BridgeCommandState, queued, leased, running, succeeded, failed, rejected, expired, deadletter,
  BridgeCommandResult, BridgeCommandRecord, ApproveBridgeCommandInput, PollBridgeCommandInput,
}
use patze_control.BridgeCommands.Store.{
  BridgeCommandStore, is_terminal_state, is_leased_or_running, Outcome, refuse, put, create, modify,
}
use patze_control.BridgeCommands.Methods.{
  approve_command, reject_command, is_candidate, lease_command, ack_command, renew_command,
  result_command, is_overdue, expire_command, expire_leases, approve, reject, poll, ack_running,
  renew_lease, push_result,
}
use patze_control.BridgeCommands.Modify.{
  Extends, Extends-refl, Extends-append, Extends-trans, modify-Extends, expire_all-Extends,
  commands-expire_leases,
}
use patze_control.BridgeCommands.History.{
  Call, creates, approves, rejects, polls, acks, renews, reports, step, run,
}

-- One write of a method to the command that it found.
pub data Write : Type 0 where
  approving : ApproveBridgeCommandInput → Write
  rejecting : String → Write
  leasing : PollBridgeCommandInput → Write
  acking : String → Write
  renewing : String → ℕ → Write
  reporting : String → BridgeCommandResult → Write
  expiring : Write

-- What the method writes, with `poll`'s and `expireLeases`' tests.
unfoldable pub written : Write → ℕ → BridgeCommandRecord → Outcome
unfolding approve_command reject_command is_candidate lease_command ack_command renew_command
    result_command is_overdue expire_command
written (approving input) now r = approve_command input now r
written (rejecting reason) now r = reject_command reason now r
written (leasing input) now r =
    if is_candidate input.machine_id r then lease_command input r else refuse
written (acking machine_id) now r = ack_command machine_id now r
written (renewing machine_id ttl) now r = renew_command machine_id ttl now r
written (reporting machine_id result) now r = result_command machine_id result now r
written expiring now r = if is_overdue now r then put (expire_command now r) else refuse

-- The edges of the state diagram.
pub data ◌⟶◌ : BridgeCommandState → BridgeCommandState → Type 0 where
  lease : queued ⟶ leased
  lease_again : expired ⟶ leased
  start : leased ⟶ running
  renew : leased ⟶ leased
  go_on : running ⟶ running
  succeed : {a : BridgeCommandState} → is_leased_or_running a ≡ true → a ⟶ succeeded
  fail : {a : BridgeCommandState} → is_leased_or_running a ≡ true → a ⟶ failed
  lapse : {a : BridgeCommandState} → is_leased_or_running a ≡ true → a ⟶ expired
  bury : {a : BridgeCommandState} → is_leased_or_running a ≡ true → a ⟶ deadletter
  deny : {a : BridgeCommandState} → is_terminal_state a ≡ false → a ⟶ rejected
  requeue : {a : BridgeCommandState} → is_terminal_state a ≡ false → a ⟶ queued

infix 40 ◌⟶◌
ruleset edges = (lease, lease_again, start, renew, go_on, succeed, fail, lapse, bury, deny, requeue)

-- Every write of a method follows an edge of the diagram, so a terminal state is never left.
pub written-⟶ :
    (w : Write) (now : ℕ) (r n : BridgeCommandRecord) → written w now r ≡ put n → r.state ⟶ n.state
unfolding written
written-⟶ (approving input) now r n e = grind (arith, edges)
written-⟶ (rejecting reason) now r n e = grind (arith, edges)
written-⟶ (leasing input) now r n e = grind (arith, edges)
written-⟶ (acking machine_id) now r n e = grind (arith, edges)
written-⟶ (renewing machine_id ttl) now r n e = grind (arith, edges)
written-⟶ (reporting machine_id result) now r n e = grind (arith, edges)
written-⟶ expiring now r n e = grind (arith, edges)

-- What holds between a command and any later version of it.
pub record Advances (a b : BridgeCommandRecord) : Type 0 where
  pub id_kept : b.id ≡ a.id
  pub creation_kept : b.created_at ≡ a.created_at
  pub snapshot_kept : b.snapshot ≡ a.snapshot
  pub leases_grow : a.lease_attempts ≤ b.lease_attempts
  pub executions_grow : a.execution_attempts ≤ b.execution_attempts
  pub approval_kept : is_some a.approved_at ≡ true → is_some b.approved_at ≡ true
  pub terminal_kept : is_terminal_state a.state ≡ true → b ≡ a

Advances-refl : (a : BridgeCommandRecord) → Advances a a
Advances-refl a = ground arith

Advances-trans : (a b c : BridgeCommandRecord) → Advances a b → Advances b c → Advances a c
Advances-trans a b c h k = record {
  id_kept = k.id_kept ∙ h.id_kept;
  creation_kept = k.creation_kept ∙ h.creation_kept;
  snapshot_kept = k.snapshot_kept ∙ h.snapshot_kept;
  leases_grow = omega arith;
  executions_grow = omega arith;
  approval_kept = λ t. k.approval_kept (h.approval_kept t);
  terminal_kept = λ t.
      k.terminal_kept (subst (λ x. is_terminal_state x.state ≡ true) (sym (h.terminal_kept t)) t)
      ∙ h.terminal_kept t;
}

pub written-Advances :
    (w : Write) (now : ℕ) (r n : BridgeCommandRecord) → written w now r ≡ put n → Advances r n
unfolding written
written-Advances (approving input) now r n e = ground arith
written-Advances (rejecting reason) now r n e = ground arith
written-Advances (leasing input) now r n e = ground arith
written-Advances (acking machine_id) now r n e = ground arith
written-Advances (renewing machine_id ttl) now r n e = ground arith
written-Advances (reporting machine_id result) now r n e = ground arith
written-Advances expiring now r n e = ground arith

modify-Advances :
    (p : BridgeCommandRecord → Bool) (decide : BridgeCommandRecord → Outcome) (w : Write) (now : ℕ)
    → ((r : BridgeCommandRecord) → p r ≡ true → written w now r ≡ decide r)
    → (s : BridgeCommandStore) → Extends Advances s.commands (modify p decide s).0.commands
modify-Advances p decide w now same s =
    modify-Extends Advances Advances-refl p decide
      (λ r n t e. written-Advances w now r n (same r t ∙ e)) s

expire_leases-Advances :
    (now : ℕ) (s : BridgeCommandStore) → Extends Advances s.commands (expire_leases now s).commands
unfolding written
expire_leases-Advances now s = rw (commands-expire_leases now s) (
    expire_all-Extends Advances Advances-refl now
      (λ r o. written-Advances expiring now r _ (rw o refl)) s.commands)

step-Advances :
    (s : BridgeCommandStore) (c : Call) → Extends Advances s.commands (step s c).commands
unfolding step create approve reject poll ack_running renew_lease push_result written
step-Advances s (creates fresh_id now snapshot) = Extends-append Advances Advances-refl s.commands _
step-Advances s (approves input now) = modify-Advances _ _ (approving input) now (λ r t. refl) s
step-Advances s (rejects command_id reason now) =
    modify-Advances _ _ (rejecting reason) now (λ r t. refl) s
step-Advances s (polls input) =
    Extends-trans Advances Advances-trans _ _ _ (expire_leases-Advances input.now_ms s)
      (modify-Advances _ _ (leasing input) 0 (λ r t. rw t refl) _)
step-Advances s (acks command_id machine_id now) =
    modify-Advances _ _ (acking machine_id) now (λ r t. refl) s
step-Advances s (renews command_id machine_id ttl now) =
    modify-Advances _ _ (renewing machine_id ttl) now (λ r t. refl) s
step-Advances s (reports command_id machine_id result now) =
    modify-Advances _ _ (reporting machine_id result) now (λ r t. refl) s

-- Whatever calls are made, every command stays in its place and only advances: it keeps its id, its
-- creation time and its snapshot, its counts of leases and runs never fall, an approval is not
-- withdrawn, and a command in a terminal state stays as it is.
pub run-Advances :
    (s : BridgeCommandStore) (cs : List Call) → Extends Advances s.commands (run s cs).commands
unfolding run
run-Advances s [] = Extends-refl Advances Advances-refl s.commands
run-Advances s (c ∷ cs) =
    Extends-trans Advances Advances-trans _ _ _ (step-Advances s c) (run-Advances (step s c) cs)
