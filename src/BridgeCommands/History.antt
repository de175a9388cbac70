-- ===== src/BridgeCommands/History.antt =====
-- Any sequence of calls on the store, and the invariant of all its commands.
use patze_control.Base.{ℕ, List, [], ◌∷◌, String, All, All-append, arith}
use patze_control.BridgeCommands.Types.{
  BridgeCommandSnapshot, BridgeCommandResult, ApproveBridgeCommandInput, PollBridgeCommandInput,
}
use patze_control.BridgeCommands.Store.{BridgeCommandStore, create}
use patze_control.BridgeCommands.Methods.{
  approve, reject, poll, ack_running, renew_lease, push_result, expire_leases,
}
use patze_control.BridgeCommands.Modify.{modify-All, expire_all-All, commands-expire_leases}
use patze_control.BridgeCommands.Soundness.{
  IsSound, approve_command-IsSound, reject_command-IsSound, lease_command-IsSound,
  ack_command-IsSound, renew_command-IsSound, result_command-IsSound, expire_command-IsSound,
}

-- A call of a public method that changes the store, with the clock's reading.
pub data Call : Type 0 where
  creates : String → ℕ → BridgeCommandSnapshot → Call
  approves : ApproveBridgeCommandInput → ℕ → Call
  rejects : String → String → ℕ → Call
  polls : PollBridgeCommandInput → Call
  acks : String → String → ℕ → Call
  renews : String → String → ℕ → ℕ → Call
  reports : String → String → BridgeCommandResult → ℕ → Call

-- Every command of the store is sound.
abbrev pub AllSound : BridgeCommandStore → Type 0
AllSound s = All IsSound s.commands

unfoldable pub step : BridgeCommandStore → Call → BridgeCommandStore
step s (creates fresh_id now snapshot) = (create fresh_id now snapshot s).0
step s (approves input now) = (approve input now s).0
step s (rejects command_id reason now) = (reject command_id reason now s).0
step s (polls input) = (poll input s).0
step s (acks command_id machine_id now) = (ack_running command_id machine_id now s).0
step s (renews command_id machine_id ttl now) = (renew_lease command_id machine_id ttl now s).0
step s (reports command_id machine_id result now) =
    (push_result command_id machine_id result now s).0

unfoldable pub run : BridgeCommandStore → List Call → BridgeCommandStore
run s [] = s
run s (c ∷ cs) = run (step s c) cs

pub expire_leases-AllSound :
    (now : ℕ) (s : BridgeCommandStore) → AllSound s → AllSound (expire_leases now s)
expire_leases-AllSound now s h =
    rw (commands-expire_leases now s)
      (expire_all-All IsSound now (λ r k o. expire_command-IsSound now r k o) s.commands h)

-- Each call of the store keeps every command sound.
pub step-AllSound : (s : BridgeCommandStore) (c : Call) → AllSound s → AllSound (step s c)
unfolding step create approve reject poll ack_running renew_lease push_result
step-AllSound s (creates fresh_id now snapshot) h =
    All-append IsSound s.commands _ h (ground arith, tt)
step-AllSound s (approves input now) h =
    modify-All IsSound _ _ (λ r n t k e. approve_command-IsSound r k input now e) s h
step-AllSound s (rejects command_id reason now) h =
    modify-All IsSound _ _ (λ r n t k e. reject_command-IsSound r k reason now e) s h
step-AllSound s (polls input) h =
    modify-All IsSound _ _ (λ r n t k e. lease_command-IsSound r k input t e) _
      (expire_leases-AllSound input.now_ms s h)
step-AllSound s (acks command_id machine_id now) h =
    modify-All IsSound _ _ (λ r n t k e. ack_command-IsSound r k machine_id now e) s h
step-AllSound s (renews command_id machine_id ttl now) h =
    modify-All IsSound _ _ (λ r n t k e. renew_command-IsSound r k machine_id ttl now e) s h
step-AllSound s (reports command_id machine_id result now) h =
    modify-All IsSound _ _ (λ r n t k e. result_command-IsSound r k machine_id result now e) s h

-- Whatever calls are made on a store of sound commands, such as the empty one, every command stays
-- sound: a leased or running one is held by its own machine for a set time, a command is executed
-- at most once for each lease, none that needs approval is leased, run or finished without it, a
-- finished one has its result, and one that needs no approval is leased at most three times.
pub run-AllSound : (s : BridgeCommandStore) (cs : List Call) → AllSound s → AllSound (run s cs)
unfolding run
run-AllSound s [] h = h
run-AllSound s (c ∷ cs) h = run-AllSound (step s c) cs (step-AllSound s c h)
