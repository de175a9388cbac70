-- ===== src/Bridge/Growing.antt =====
-- Every complete line of a growing file is sent once.
use patze_control.Base.{Bool, List, [], ◌∷◌, ◌++◌, length, ◌≡◌}
use patze_control.Bridge.Delta.{Bytes, consumable, lines_of, Sent, push_file}

-- The lines that have been sent are those of the content, up to its last line end.
pub record IsCaughtUp (content : Bytes) (sent : Sent) : Type 0 where
  pub offset : sent.offset ≡ length (consumable content)
  pub lines : sent.lines ≡ lines_of (consumable content)

-- What has been sent are the lines of an earlier content.
abbrev pub IsUpTo : Bytes → Sent → Type 0
IsUpTo content sent =
    (earlier : Bytes) × (added : Bytes) × (content ≡ earlier ++ added) × IsCaughtUp earlier sent

-- The file grows, and each time it is pushed, well or not.
unfoldable pub pushes : Bytes → List (Bytes × Bool) → Sent → Bytes × Sent
unfolding push_file
pushes content [] sent = (content, sent)
pushes content ((added, ok) ∷ later) sent =
    pushes (content ++ added) later (push_file (content ++ added) ok sent)
