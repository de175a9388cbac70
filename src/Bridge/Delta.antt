-- ===== src/Bridge/Delta.antt =====
-- Reading what has been added to a file of run records: `readDelta` and the offsets of
-- packages/openclaw-bridge/src/cron-pusher.ts. A file is its bytes, which are valid UTF-8.
use patze_control.Base.{
  ℕ, ◌+◌, Bool, true, false, List, [], ◌∷◌, ◌++◌, length, drop, keep, eqb, leb, ltb, if◌then◌else◌,
}

abbrev pub Bytes : Type 0
Bytes = List ℕ

abbrev pub newline : ℕ
newline = 10

abbrev pub is_filled : Bytes → Bool
is_filled [] = false
is_filled (b ∷ bs) = true

-- `chunk.slice(0, chunk.lastIndexOf('\n') + 1)`.
unfoldable pub consumable : Bytes → Bytes
consumable [] = []
consumable (b ∷ bs) =
    let rest = consumable bs in
    if is_filled rest then b ∷ rest else if eqb b newline then b ∷ [] else []

abbrev pub cons_head : ℕ → List Bytes → List Bytes
cons_head b [] = (b ∷ []) ∷ []
cons_head b (line ∷ lines) = (b ∷ line) ∷ lines

-- `text.split('\n')`.
unfoldable pub split_lines : Bytes → List Bytes
split_lines [] = [] ∷ []
split_lines (b ∷ bs) =
    let rest = split_lines bs in if eqb b newline then [] ∷ rest else cons_head b rest

-- `split('\n').filter((line) => line.length > 0)`.
unfoldable pub lines_of : Bytes → List Bytes
unfolding split_lines
lines_of bytes = keep is_filled (split_lines bytes)

pub record ReadDeltaResult : Type 0 where
  pub next_offset : ℕ
  pub lines : List Bytes

unfoldable pub read_delta : Bytes → ℕ → ReadDeltaResult
unfolding consumable lines_of
read_delta content previous_offset =
    let safe_offset = if ltb (length content) previous_offset then 0 else previous_offset in
    let consumed = consumable (drop safe_offset content) in
    if leb (length content) safe_offset
    then record { next_offset = safe_offset; lines = [] }
    else if is_filled consumed
    then record { next_offset = safe_offset + length consumed; lines = lines_of consumed }
    else record { next_offset = safe_offset; lines = [] }

-- The offset of one file and the lines of it in the posts that succeeded.
pub record Sent : Type 0 where
  pub offset : ℕ
  pub lines : List Bytes

-- `pushDelta` for one file: only a post that takes place and succeeds moves the offset.
unfoldable pub push_file : Bytes → Bool → Sent → Sent
unfolding read_delta
push_file content ok sent =
    let delta = read_delta content sent.offset in
    if ok then record { offset = delta.next_offset; lines = sent.lines ++ delta.lines } else sent
