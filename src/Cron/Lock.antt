-- ===== src/Cron/Lock.antt =====
-- The queueing mutex of packages/telemetry-core/src/cron/lock.ts. A waiter stands for the `resolve`
-- of its promise.
use mathlib.Core.List.{append_assoc}
use patze_control.Base.{
  ℕ, ◌≤◌, Bool, true, false, Option, none, some, List, [], ◌∷◌, ◌++◌, length, ◌≡◌, refl, ap, arith,
}

pub record AsyncLock : Type 0 where
  pub queue : List ℕ
  pub locked : Bool

abbrev pub new_lock : AsyncLock
new_lock = record { queue = []; locked = false }

-- `true`: the caller goes on at once; `false`: it waits until its promise is resolved.
abbrev acquire_when : Bool → ℕ → AsyncLock → AsyncLock × Bool
acquire_when false caller lock = (record lock { locked = true }, true)
acquire_when true caller lock = (record lock { queue = lock.queue ++ (caller ∷ []) }, false)

unfoldable pub acquire : ℕ → AsyncLock → AsyncLock × Bool
acquire caller lock = acquire_when lock.locked caller lock

-- The waiter that goes on, if any.
abbrev hand_on : List ℕ → AsyncLock → AsyncLock × Option ℕ
hand_on [] lock = (record lock { locked = false }, none)
hand_on (next ∷ rest) lock = (record lock { queue = rest }, some next)

unfoldable pub release : AsyncLock → AsyncLock × Option ℕ
release lock = hand_on lock.queue lock

-- The lock with the callers that are between `acquire` and `release`.
pub record World : Type 0 where
  pub lock : AsyncLock
  pub inside : List ℕ

abbrev pub resumed : Option ℕ → List ℕ → List ℕ
resumed none rest = rest
resumed (some next) rest = next ∷ rest

-- What can happen: a caller asks for the lock and goes on or waits, or one that is inside leaves.
pub data Step (w : World) : World → Type 0 where
  enter :
      (caller : ℕ)
      → (acquire caller w.lock).1 ≡ true
      → Step w (record { lock = (acquire caller w.lock).0; inside = caller ∷ w.inside })
  wait :
      (caller : ℕ)
      → (acquire caller w.lock).1 ≡ false
      → Step w (record { lock = (acquire caller w.lock).0; inside = w.inside })
  leave :
      (caller : ℕ) (rest : List ℕ)
      → w.inside ≡ caller ∷ rest
      → Step w (record { lock = (release w.lock).0; inside = resumed (release w.lock).1 rest })

pub data Reach (w : World) : World → Type 0 where
  here : Reach w w
  next : {u v : World} → Reach w u → Step u v → Reach w v

abbrev pub idle : World
idle = record { lock = new_lock; inside = [] }

-- The lock is free only when nobody is inside or waits, and held by one caller otherwise.
pub record IsExclusive (w : World) : Type 0 where
  pub free : w.lock.locked ≡ false → (w.inside ≡ []) × (w.lock.queue ≡ [])
  pub held : w.lock.locked ≡ true → length w.inside ≡ 1

-- The specification: one line of callers, of which the first is inside.
abbrev pub line : World → List ℕ
line w = w.inside ++ w.lock.queue

pub data Moves (before after : List ℕ) : Type 0 where
  joins : (caller : ℕ) → after ≡ before ++ (caller ∷ []) → Moves before after
  leaves : (caller : ℕ) → before ≡ caller ∷ after → Moves before after

enter-IsExclusive :
    (w : World) (caller : ℕ)
    → IsExclusive w
    → (acquire caller w.lock).1 ≡ true
    → IsExclusive (record { lock = (acquire caller w.lock).0; inside = caller ∷ w.inside })
unfolding acquire
enter-IsExclusive w caller h e = ground arith

wait-IsExclusive :
    (w : World) (caller : ℕ)
    → IsExclusive w
    → (acquire caller w.lock).1 ≡ false
    → IsExclusive (record { lock = (acquire caller w.lock).0; inside = w.inside })
unfolding acquire
wait-IsExclusive w caller h e = ground arith

leave-IsExclusive :
    (w : World) (caller : ℕ) (rest : List ℕ)
    → IsExclusive w
    → w.inside ≡ caller ∷ rest
    → IsExclusive (record { lock = (release w.lock).0; inside = resumed (release w.lock).1 rest })
unfolding release
leave-IsExclusive w caller rest h e = ground arith

enter-Moves :
    (w : World) (caller : ℕ)
    → IsExclusive w
    → (acquire caller w.lock).1 ≡ true
    → caller ∷ w.inside ++ (acquire caller w.lock).0.queue ≡ line w ++ (caller ∷ [])
unfolding acquire
enter-Moves w caller h e = ground arith

wait-Moves :
    (w : World) (caller : ℕ)
    → (acquire caller w.lock).1 ≡ false
    → w.inside ++ (acquire caller w.lock).0.queue ≡ line w ++ (caller ∷ [])
unfolding acquire
wait-Moves w caller e = ground (arith, append_assoc w.inside w.lock.queue (caller ∷ []))

rest-nil :
    (w : World) (caller : ℕ) (rest : List ℕ) → IsExclusive w → w.inside ≡ caller ∷ rest → rest ≡ []
rest-nil w caller [] h e = refl
rest-nil w caller (x ∷ xs) h e = ground arith

leave-Moves :
    (w : World) (caller : ℕ) (rest : List ℕ)
    → IsExclusive w
    → w.inside ≡ caller ∷ rest
    → line w ≡ caller ∷ (resumed (release w.lock).1 rest ++ (release w.lock).0.queue)
unfolding release
leave-Moves w caller rest h e =
    let alone = rest-nil w caller rest h e in rw (e, alone) (handed w.lock.queue refl)
  where
    handed :
        (queue : List ℕ)
        → queue ≡ w.lock.queue
        → caller ∷ queue
          ≡ caller ∷ (resumed (hand_on queue w.lock).1 [] ++ (hand_on queue w.lock).0.queue)
    handed [] q = ap (λ l. caller ∷ l) q
    handed (x ∷ xs) q = refl

Step-keeps : (w w' : World) → IsExclusive w → Step w w' → IsExclusive w' × Moves (line w) (line w')
Step-keeps w w' h (enter caller e) =
    (enter-IsExclusive w caller h e, joins caller (enter-Moves w caller h e))
Step-keeps w w' h (wait caller e) =
    (wait-IsExclusive w caller h e, joins caller (wait-Moves w caller e))
Step-keeps w w' h (leave caller rest e) =
    (leave-IsExclusive w caller rest h e, leaves caller (leave-Moves w caller rest h e))

pub Reach-IsExclusive : (w : World) → Reach idle w → IsExclusive w
Reach-IsExclusive w here = ground arith
Reach-IsExclusive w (next {u = u} r st) = (Step-keeps u w (Reach-IsExclusive u r) st).0

-- In every state that the lock can get to from an idle start, one caller at most is between
-- `acquire` and `release`, and every further step serves the callers first come, first served.
pub lock_is_a_queue :
    (w w' : World) → Reach idle w → Step w w' → (length w.inside ≤ 1) × Moves (line w) (line w')
lock_is_a_queue w w' r st =
    let h = Reach-IsExclusive w r in (at_most_one w h, (Step-keeps w w' h st).1)
  where
    at_most_one : (v : World) → IsExclusive v → length v.inside ≤ 1
    at_most_one v x = ground arith
