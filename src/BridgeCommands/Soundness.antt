-- ===== src/BridgeCommands/Soundness.antt =====
-- The invariant of one stored command, and each write of the store's methods.
use patze_control.Base.{ℕ, ◌≤◌, ◌<◌, Bool, true, false, some, String, eq_iff, is_some, ◌≡◌, arith}
use patze_control.BridgeCommands.Types.{
  BridgeCommandState, queued, leased, rejected, expired, BridgeCommandResult, BridgeCommandRecord,
  ApproveBridgeCommandInput, PollBridgeCommandInput,
}
use patze_control.BridgeCommands.Store.{is_leased_or_running, is_succeeded_or_failed, put}
use patze_control.BridgeCommands.Methods.{
  approve_command, reject_command, is_candidate, lease_command, ack_command, renew_command,
  result_command, is_overdue, expire_command,
}

-- The states that a command only gets to by a lease.
abbrev pub was_leased : BridgeCommandState → Bool
was_leased queued = false
was_leased rejected = false
was_leased _ = true

pub record IsSound (r : BridgeCommandRecord) : Type 0 where
  pub owned :
      is_leased_or_running r.state ≡ true
      → (r.lease_owner_machine_id ≡ some r.snapshot.machine_id) × (is_some r.lease_until ≡ true)
  pub executed : r.execution_attempts ≤ r.lease_attempts
  pub pending : r.state ≡ leased → r.execution_attempts < r.lease_attempts
  pub gated :
      was_leased r.state ≡ true → r.snapshot.approval_required ≡ true → is_some r.approved_at ≡ true
  pub reported : is_succeeded_or_failed r.state ≡ true → is_some r.result ≡ true
  pub bounded : r.snapshot.approval_required ≡ false → r.lease_attempts ≤ 3
  pub fresh : r.snapshot.approval_required ≡ false → r.state ≡ queued → r.lease_attempts ≡ 0
  pub spare : r.snapshot.approval_required ≡ false → r.state ≡ expired → r.lease_attempts < 3

module _ (r : BridgeCommandRecord) (sound : IsSound r) {n : BridgeCommandRecord} where
  pub approve_command-IsSound :
      (input : ApproveBridgeCommandInput) (now : ℕ)
      → approve_command input now r ≡ put n
      → IsSound n
  unfolding approve_command
  approve_command-IsSound input now e = ground arith

  pub reject_command-IsSound :
      (reason : String) (now : ℕ) → reject_command reason now r ≡ put n → IsSound n
  unfolding reject_command
  reject_command-IsSound reason now e = ground arith

  pub lease_command-IsSound :
      (input : PollBridgeCommandInput)
      → is_candidate input.machine_id r ≡ true
      → lease_command input r ≡ put n
      → IsSound n
  unfolding lease_command is_candidate
  lease_command-IsSound input c e = ground (arith, eq_iff r.snapshot.machine_id input.machine_id)

  pub ack_command-IsSound :
      (machine_id : String) (now : ℕ) → ack_command machine_id now r ≡ put n → IsSound n
  unfolding ack_command
  ack_command-IsSound machine_id now e = ground (arith, eq_iff r.snapshot.machine_id machine_id)

  pub renew_command-IsSound :
      (machine_id : String) (ttl now : ℕ) → renew_command machine_id ttl now r ≡ put n → IsSound n
  unfolding renew_command
  renew_command-IsSound machine_id ttl now e = ground arith

  pub result_command-IsSound :
      (machine_id : String) (result : BridgeCommandResult) (now : ℕ)
      → result_command machine_id result now r ≡ put n
      → IsSound n
  unfolding result_command
  result_command-IsSound machine_id result now e = ground arith

pub expire_command-IsSound :
    (now : ℕ) (r : BridgeCommandRecord)
    → IsSound r
    → is_overdue now r ≡ true
    → IsSound (expire_command now r)
unfolding expire_command is_overdue
expire_command-IsSound now r sound o = ground arith
