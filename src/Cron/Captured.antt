-- ===== src/Cron/Captured.antt =====
-- What a captured snapshot holds when it is read back.
use patze_control.Base.{
  ℕ, zero, suc, ◌-◌, ◌≤◌, true, false, String, List, [], ◌∷◌, ◌++◌, length, length-append, take,
  All, All-take, Bool-cases, ltb, ◌≡◌, refl, ap, ◌∙◌, inl, inr, arith,
}
use patze_control.Cron.Types.{ScheduledTask}
use patze_control.Cron.Store.{
  SnapshotSource, add, SnapshotId, same_id, same_source, TaskSnapshot, TaskSnapshotStore, capture,
  unlink, unlink_all, write_file, read_file, tasks_of, max_snapshots,
}

-- No snapshot in the index has the id.
abbrev pub IsFresh : SnapshotId → List TaskSnapshot → Type 0
IsFresh id index = All (λ s. same_id s.id id ≡ false) index

same_id-swap : (a b c : SnapshotId) → same_id a b ≡ true → same_id a c ≡ same_id b c
same_id-swap a b c h = ground arith

read-unlink :
    (id old : SnapshotId) (files : List (SnapshotId × List ScheduledTask))
    → same_id old id ≡ false
    → read_file id (unlink old files) ≡ read_file id files
unfolding read_file unlink
read-unlink id old [] h = refl
read-unlink id old ((name, tasks) ∷ files) h =
    let rest = read-unlink id old files h in
    elim (Bool-cases (same_id name old)) [
      | inl gone ↦ rw (gone, same_id-swap name old id gone, h) rest
      | inr kept ↦ rw (kept, rest) refl
    ]

read-unlink_all :
    (id : SnapshotId) (olds : List TaskSnapshot) (files : List (SnapshotId × List ScheduledTask))
    → IsFresh id olds
    → read_file id (unlink_all olds files) ≡ read_file id files
unfolding unlink_all
read-unlink_all id [] files h = refl
read-unlink_all id (old ∷ rest) files h =
    read-unlink_all id rest (unlink old.id files) h.1 ∙ read-unlink id old.id files h.0

same_id_refl : (id : SnapshotId) → same_id id id ≡ true
same_id_refl id = ground (arith, same_source-refl id.source)
  where
    same_source-refl : (s : SnapshotSource) → same_source s s ≡ true
    same_source-refl add = refl
    same_source-refl _ = refl

-- The newest snapshot is not among those that make room.
take-append_short :
    (n : ℕ) (xs ys : List TaskSnapshot) → n ≤ length xs → take n (xs ++ ys) ≡ take n xs
take-append_short zero xs ys h = refl
take-append_short (suc n) [] ys h = absurd (omega arith)
take-append_short (suc n) (x ∷ xs) ys h = ap (λ l. x ∷ l) (take-append_short n xs ys (omega arith))

pub capture-read :
    (tasks : List ScheduledTask) (source : SnapshotSource) (description : String) (now : ℕ)
    (store : TaskSnapshotStore)
    → let id : SnapshotId = record { time = now; source = source } in
      IsFresh id store.index
      → read_file id (capture tasks source description now store).files ≡ tasks_of tasks
unfolding capture write_file read_file
capture-read tasks source description now store fresh =
    elim (Bool-cases (ltb max_snapshots (length index))) [
      | inr room ↦ rw (room, same_id_refl id) refl
      | inl full ↦ rw full (
          read-unlink_all id (take excess index) (write_file id tasks store.files) (
            rw
              (take-append_short excess store.index _
                (omega (arith, length-append store.index (entry ∷ []))))
              (All-take (λ s. same_id s.id id ≡ false) excess store.index fresh))
          ∙ (rw (same_id_refl id) refl))
    ]
  where
    id : SnapshotId
    id = record { time = now; source = source }

    entry : TaskSnapshot
    entry = record { id = id; description = description; task_count = length tasks }

    index : List TaskSnapshot
    index = store.index ++ (entry ∷ [])

    excess : ℕ
    excess = length index - max_snapshots
