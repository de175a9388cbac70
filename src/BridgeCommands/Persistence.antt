-- ===== src/BridgeCommands/Persistence.antt =====
-- The file on disk against the commands in memory, over any calls.
use patze_control.Base.{
  ℕ, Bool, true, Option, none, some, String, All, All-append, map, List, [], ◌∷◌, Bool-cases, ◌≡◌,
  ◌∙◌, ap, sym, refl, inl, inr, ◌⊎◌, arith,
}
use patze_control.Value.{Value, is_undefined}
use patze_control.Value.Json.{is_json, json_value-is_json}
use patze_control.BridgeCommands.Types.{
  BridgeCommandResult, ApproveBridgeCommandInput, PollBridgeCommandInput, BridgeCommandRecord,
  BridgeCommandStoreData,
}
use patze_control.BridgeCommands.Store.{
  FileContent, parse, BridgeCommandStore, Outcome, refuse, unchanged, put, save, load, create,
  read_field, read_result, read_command, modify, modify_at, conclude,
}
use patze_control.BridgeCommands.Methods.{
  approve, reject, poll, ack_running, renew_lease, push_result, expire_leases, expire_all,
  approve_command, reject_command, lease_command, ack_command, renew_command, result_command,
  expire_command,
}
use patze_control.BridgeCommands.Modify.{
  find_index-cases, modify-All, expire_all-All, commands-expire_leases,
}
use patze_control.BridgeCommands.History.{
  Call, creates, approves, rejects, polls, acks, renews, reports, step, run,
}

-- The file lists the commands of the store, and there is none before the first save.
abbrev IsSaved : BridgeCommandStore → Type 0
IsSaved s = ((s.file ≡ none) × (s.commands ≡ [])) ⊎ (s.file ≡ (save s.commands).file)

save-IsSaved : (xs : List BridgeCommandRecord) → IsSaved (save xs)
save-IsSaved xs = inr refl

conclude-IsSaved :
    (s : BridgeCommandStore) (i : ℕ) (r : BridgeCommandRecord) (o : Outcome)
    → IsSaved s
    → IsSaved (conclude s i r o).0
conclude-IsSaved s i r refuse h = h
conclude-IsSaved s i r unchanged h = h
conclude-IsSaved s i r (put n) h = save-IsSaved _

modify-IsSaved :
    (p : BridgeCommandRecord → Bool) (decide : BridgeCommandRecord → Outcome)
    (s : BridgeCommandStore)
    → IsSaved s
    → IsSaved (modify p decide s).0
unfolding modify
modify-IsSaved p decide s h = elim (find_index-cases p s.commands) [
  | inl (e, _) ↦ rw (e, modify) h
  | inr (i, r, e, g, _, _) ↦
      rw (e, modify) (rw (g, modify_at) (conclude-IsSaved s i r (decide r) h))
]

expire_leases-IsSaved :
    (now : ℕ) (s : BridgeCommandStore) → IsSaved s → IsSaved (expire_leases now s)
unfolding expire_leases
expire_leases-IsSaved now s h = elim (Bool-cases (expire_all now s.commands).1) [
  | inl c ↦ rw c (save-IsSaved _)
  | inr c ↦ rw c h
]

step-IsSaved : (s : BridgeCommandStore) (c : Call) → IsSaved s → IsSaved (step s c)
unfolding step create approve reject poll ack_running renew_lease push_result
step-IsSaved s (creates fresh_id now snapshot) h = save-IsSaved _
step-IsSaved s (approves input now) h = modify-IsSaved _ _ s h
step-IsSaved s (rejects command_id reason now) h = modify-IsSaved _ _ s h
step-IsSaved s (polls input) h = modify-IsSaved _ _ _ (expire_leases-IsSaved input.now_ms s h)
step-IsSaved s (acks command_id machine_id now) h = modify-IsSaved _ _ s h
step-IsSaved s (renews command_id machine_id ttl now) h = modify-IsSaved _ _ s h
step-IsSaved s (reports command_id machine_id result now) h = modify-IsSaved _ _ s h

run-IsSaved : (s : BridgeCommandStore) (cs : List Call) → IsSaved s → IsSaved (run s cs)
unfolding run
run-IsSaved s [] h = h
run-IsSaved s (c ∷ cs) h = run-IsSaved (step s c) cs (step-IsSaved s c h)

-- What JSON can hold: the arguments of a command and the numbers of a result.
abbrev pub IsJsonResult : Option BridgeCommandResult → Type 0
IsJsonResult none = Unit
IsJsonResult (some result) = (is_json result.exit_code ≡ true) × (is_json result.duration_ms ≡ true)

abbrev IsJsonCommand : BridgeCommandRecord → Type 0
IsJsonCommand r = (is_json r.snapshot.args ≡ true) × IsJsonResult r.result

abbrev pub IsJsonCall : Call → Type 0
IsJsonCall (creates fresh_id now snapshot) = is_json snapshot.args ≡ true
IsJsonCall (reports command_id machine_id result now) = IsJsonResult (some result)
IsJsonCall _ = Unit

abbrev AreJson : BridgeCommandStore → Type 0
AreJson s = All IsJsonCommand s.commands

module _ (r n : BridgeCommandRecord) (j : IsJsonCommand r) where
  approve_command-IsJsonCommand :
      (input : ApproveBridgeCommandInput) (now : ℕ)
      → approve_command input now r ≡ put n
      → IsJsonCommand n
  unfolding approve_command
  approve_command-IsJsonCommand input now e = ground arith

  reject_command-IsJsonCommand :
      (reason : String) (now : ℕ) → reject_command reason now r ≡ put n → IsJsonCommand n
  unfolding reject_command
  reject_command-IsJsonCommand reason now e = ground arith

  lease_command-IsJsonCommand :
      (input : PollBridgeCommandInput) → lease_command input r ≡ put n → IsJsonCommand n
  unfolding lease_command
  lease_command-IsJsonCommand input e = ground arith

  ack_command-IsJsonCommand :
      (machine_id : String) (now : ℕ) → ack_command machine_id now r ≡ put n → IsJsonCommand n
  unfolding ack_command
  ack_command-IsJsonCommand machine_id now e = ground arith

  renew_command-IsJsonCommand :
      (machine_id : String) (ttl now : ℕ)
      → renew_command machine_id ttl now r ≡ put n
      → IsJsonCommand n
  unfolding renew_command
  renew_command-IsJsonCommand machine_id ttl now e = ground arith

  result_command-IsJsonCommand :
      (machine_id : String) (result : BridgeCommandResult) (now : ℕ)
      → IsJsonResult (some result)
      → result_command machine_id result now r ≡ put n
      → IsJsonCommand n
  unfolding result_command
  result_command-IsJsonCommand machine_id result now k e = ground arith

expire_command-IsJsonCommand :
    (now : ℕ) (r : BridgeCommandRecord) → IsJsonCommand r → IsJsonCommand (expire_command now r)
unfolding expire_command
expire_command-IsJsonCommand now r j = ground arith

step-AreJson : (s : BridgeCommandStore) (c : Call) → IsJsonCall c → AreJson s → AreJson (step s c)
unfolding step create approve reject poll ack_running renew_lease push_result
step-AreJson s (creates fresh_id now snapshot) fit h =
    All-append IsJsonCommand s.commands _ h ((fit, tt), tt)
step-AreJson s (approves input now) fit h =
    modify-All IsJsonCommand _ _ (λ r n t k. approve_command-IsJsonCommand r n k input now) s h
step-AreJson s (rejects command_id reason now) fit h =
    modify-All IsJsonCommand _ _ (λ r n t k. reject_command-IsJsonCommand r n k reason now) s h
step-AreJson s (polls input) fit h =
    modify-All IsJsonCommand _ _ (λ r n t k. lease_command-IsJsonCommand r n k input) _
      (rw (commands-expire_leases input.now_ms s) (
        expire_all-All IsJsonCommand input.now_ms
          (λ r k o. expire_command-IsJsonCommand input.now_ms r k) s.commands h))
step-AreJson s (acks command_id machine_id now) fit h =
    modify-All IsJsonCommand _ _ (λ r n t k. ack_command-IsJsonCommand r n k machine_id now) s h
step-AreJson s (renews command_id machine_id ttl now) fit h =
    modify-All IsJsonCommand _ _ (λ r n t k. renew_command-IsJsonCommand r n k machine_id ttl now) s
      h
step-AreJson s (reports command_id machine_id result now) fit h =
    modify-All IsJsonCommand _ _
      (λ r n t k. result_command-IsJsonCommand r n k machine_id result now fit) s h

run-AreJson :
    (s : BridgeCommandStore) (cs : List Call) → All IsJsonCall cs → AreJson s → AreJson (run s cs)
unfolding run
run-AreJson s [] fit h = h
run-AreJson s (c ∷ cs) (this, fit) h = run-AreJson (step s c) cs fit (step-AreJson s c this h)

module _ (to_iso_string : ℕ → String) where
  read_field-is_json : (v : Value) → is_json v ≡ true → read_field to_iso_string v ≡ v
  read_field-is_json v j = elim (Bool-cases (is_undefined v)) [
    | inl missing ↦ rw missing refl
    | inr there ↦ rw there (json_value-is_json to_iso_string v j)
  ]

  read_result-IsJsonResult :
      (result : Option BridgeCommandResult)
      → IsJsonResult result
      → read_result to_iso_string result ≡ result
  read_result-IsJsonResult none j = refl
  read_result-IsJsonResult (some result) (code, duration) =
      rw (read_field-is_json result.exit_code code, read_field-is_json result.duration_ms duration)
        refl

  read_command-IsJsonCommand :
      (r : BridgeCommandRecord) → IsJsonCommand r → read_command to_iso_string r ≡ r
  read_command-IsJsonCommand r (args, result) =
      rw (read_field-is_json r.snapshot.args args, read_result-IsJsonResult r.result result) refl

  map-read_command :
      (xs : List BridgeCommandRecord)
      → All IsJsonCommand xs
      → map (read_command to_iso_string) xs ≡ xs
  map-read_command [] js = refl
  map-read_command (x ∷ xs) (j, js) =
      rw (read_command-IsJsonCommand x j, map-read_command xs js) refl

  stored :
      (s : BridgeCommandStore) (xs : List BridgeCommandRecord) (file : Option FileContent)
      → xs ≡ s.commands
      → file ≡ s.file
      → record { commands = xs; file = file } ≡ s
  stored s xs file c f = rw (c, f) refl

  load-IsSaved : (s : BridgeCommandStore) → IsSaved s → AreJson s → load to_iso_string s.file ≡ s
  unfolding load
  load-IsSaved s (inl (missing, empty)) js =
      ap (load to_iso_string) missing ∙ stored s [] none (sym empty) (sym missing)
  load-IsSaved s (inr saved) js =
      ap (load to_iso_string) saved ∙ stored s _ _ (map-read_command s.commands js) (sym saved)

-- A restart after any calls, on a store that began with no file, finds the same commands and the
-- same file, where the arguments of the commands and the numbers of the results are values that JSON
-- can hold.
pub load-run :
    (to_iso_string : ℕ → String) (cs : List Call)
    → All IsJsonCall cs
    → load to_iso_string (run (load to_iso_string none) cs).file ≡ run (load to_iso_string none) cs
unfolding load
load-run to_iso_string cs fit =
    load-IsSaved to_iso_string (run (load to_iso_string none) cs)
      (run-IsSaved (load to_iso_string none) cs (inl (refl, refl)))
      (run-AreJson (load to_iso_string none) cs fit tt)

-- A file that does not parse, or is of another version, or lists no commands gives the empty store.
pub load_rejects :
    (to_iso_string : ℕ → String) (raw : FileContent) (d : BridgeCommandStoreData)
    → (parse to_iso_string raw ≡ none)
      ⊎ (parse to_iso_string raw ≡ some d) × ((d.version ≡ 1 → ⊥) ⊎ (d.commands ≡ none))
    → (load to_iso_string (some raw)).commands ≡ []
unfolding load
load_rejects to_iso_string raw d h = ground arith
