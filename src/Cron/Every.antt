-- ===== src/Cron/Every.antt =====
-- When tasks run next: fixed intervals and the search over cron candidates.
use patze_control.Base.{
  ℕ, zero, suc, ◌+◌, ◌-◌, ◌*◌, ◌/◌, ◌≤◌, ◌<◌, true, false, Option, none, some, List, ltb, leb, eqb,
  or_else, if◌then◌else◌, Bool-cases, ◌≡◌, ◌⊎◌, refl, inl, inr, arith,
}
use mathlib.Core.Option.{some-injective}
use mathlib.Core.Path.{subst}
use patze_control.Cron.Types.{every}
use patze_control.Cron.Schedule.{
  Calendar, aligned_from, compute_next_run_ms, search_from, matches_cron,
}

-- The time lies a whole number of intervals away from the anchor.
abbrev pub IsAligned : ℕ → ℕ → ℕ → Type 0
IsAligned anchor every_ms t = (k : ℕ) × ((t ≡ anchor + k * every_ms) ⊎ (anchor ≡ t + k * every_ms))

div_bounds : (x e : ℕ) → 0 < e → (x / e * e ≤ x) × (x < x / e * e + e)
div_bounds x e h = grind arith

up_bounds :
    (anchor e now : ℕ)
    → 0 < e
    → anchor ≤ now
    → let next = anchor + ((now - anchor + (e - 1)) / e) * e in (now ≤ next) × (next < now + e)
up_bounds anchor e now h le = omega (arith, div_bounds (now - anchor + (e - 1)) e h)

down_bounds :
    (anchor e now : ℕ)
    → 0 < e
    → now < anchor
    → let next = anchor - ((anchor - now) / e) * e in
      (now ≤ next) × (next < now + e) × (anchor ≡ next + ((anchor - now) / e) * e)
down_bounds anchor e now h lt = omega (arith, div_bounds (anchor - now) e h)

-- One interval later, or the time itself if it lies ahead of `now` already.
abbrev later : ℕ → ℕ → ℕ → ℕ
later e now t = if leb t now then now + e else t

later_bounds :
    (e now t : ℕ)
    → 0 < e
    → now ≤ t
    → t < now + e
    → (now < later e now t) × (later e now t ≤ now + e)
later_bounds e now t h a b = ground arith

up-IsAligned :
    (anchor e now k : ℕ) → now ≤ anchor + k * e → IsAligned anchor e (later e now (anchor + k * e))
up-IsAligned anchor e now k h = elim (Bool-cases (leb (anchor + k * e) now)) [
  | inl t ↦ rw t (suc k, inl (grind arith))
  | inr t ↦ rw t (k, inl refl)
]

down-IsAligned :
    (anchor e now t k : ℕ)
    → now < anchor
    → now ≤ t
    → anchor ≡ t + k * e
    → IsAligned anchor e (later e now t)
down-IsAligned anchor e now t zero lt a q = (zero, inr (ground arith))
down-IsAligned anchor e now t (suc k) lt a q = elim (Bool-cases (leb t now)) [
  | inl s ↦ rw s (k, inr (grind arith))
  | inr s ↦ rw s (suc k, inr q)
]

later_lem :
    (anchor e now : ℕ)
    → 0 < e
    → let next = later e now (aligned_from anchor e now) in
      (now < next) × (next ≤ now + e) × IsAligned anchor e next
unfolding aligned_from
later_lem anchor e now h = elim (Bool-cases (leb anchor now)) [
  | inl b ↦
      let le : anchor ≤ now = ground arith in
      let (x, y) = up_bounds anchor e now h le in
      let (p, q) = later_bounds e now _ h x y in rw b (p, q, up-IsAligned anchor e now _ x)
  | inr b ↦
      let lt : now < anchor = ground arith in
      let (x, y, z) = down_bounds anchor e now h lt in
      let (p, q) = later_bounds e now _ h x y in rw b (p, q, down-IsAligned anchor e now _ _ lt x z)
]

-- A task with a positive interval always has a next run. It lies ahead, by one interval at most,
-- and a whole number of intervals away from the anchor, which is the present if there is none.
pub every_next :
    (calendar : Calendar) (every_ms : ℕ) (anchor : Option ℕ) (now : ℕ)
    → 0 < every_ms
    → (next : ℕ) × (compute_next_run_ms calendar (every every_ms anchor) now ≡ some next)
      × (now < next)
      × (next ≤ now + every_ms)
      × IsAligned (or_else anchor now) every_ms next
unfolding compute_next_run_ms
every_next calendar every_ms anchor now h =
    let next = later every_ms now (aligned_from (or_else anchor now) every_ms now) in
    let (a, b, c) = later_lem (or_else anchor now) every_ms now h in
    let positive : eqb every_ms 0 ≡ false = ground arith in (next, rw positive refl, a, b, c)

-- The candidate is no match for the expression, or lies beyond the limit.
abbrev pub IsPassedOver : Calendar → List (List ℕ) → ℕ → Type 0
IsPassedOver calendar parts t = matches_cron parts (calendar.fields t) ≡ false

module _ (calendar : Calendar) (parts : List (List ℕ)) (limit : ℕ) where
  -- The time found is the first candidate, in steps of a minute, that matches the expression; it lies
  -- within the limit and the rounds.
  pub search_finds_first :
      (rounds candidate found : ℕ)
      → search_from calendar parts limit rounds candidate ≡ some found
      → (k : ℕ) × (k < rounds)
        × (found ≡ candidate + k * 60_000)
        × (found ≤ limit)
        × (matches_cron parts (calendar.fields found) ≡ true)
        × ((j : ℕ) → j < k → IsPassedOver calendar parts (candidate + j * 60_000))
  unfolding search_from
  search_finds_first zero candidate found e = absurd (cc e)
  search_finds_first (suc rounds) candidate found e = elim (Bool-cases (ltb limit candidate)) [
    | inl beyond ↦ absurd (no_result (rw beyond at e))
    | inr within ↦ elim (Bool-cases (matches_cron parts (calendar.fields candidate))) [
      | inl hit ↦
          let same : candidate ≡ found = some-injective _ _ (rw (within, hit) at e) in
          (
            0,
            omega arith,
            omega arith,
            rw (← same) (ground arith),
            rw (← same) hit,
            λ j lt. absurd (omega arith),
          )
      | inr miss ↦
          let (k, a, b, c, d, f) =
            search_finds_first rounds (candidate + 60_000) found (rw (within, miss) at e) in
          (suc k, omega arith, omega arith, c, d, earlier miss k f)
    ]
  ]
    where
      no_result : ¬ (◌≡◌ {A = Option ℕ} none (some found))
      no_result q = cc

      earlier :
          IsPassedOver calendar parts candidate
          → (k : ℕ)
          → ((j : ℕ) → j < k → IsPassedOver calendar parts (candidate + 60_000 + j * 60_000))
          → (j : ℕ) → j < suc k
          → IsPassedOver calendar parts (candidate + j * 60_000)
      earlier miss k f zero lt = subst (IsPassedOver calendar parts) (omega arith) miss
      earlier miss k f (suc j) lt =
          subst (IsPassedOver calendar parts) (omega arith) (f j (omega arith))

  -- With no time found, no candidate within the rounds and the limit matches.
  pub search_finds_all :
      (rounds candidate : ℕ)
      → search_from calendar parts limit rounds candidate ≡ none
      → (j : ℕ) → j < rounds
      → candidate + j * 60_000 ≤ limit
      → IsPassedOver calendar parts (candidate + j * 60_000)
  unfolding search_from
  search_finds_all zero candidate e j lt le = absurd (omega arith)
  search_finds_all (suc rounds) candidate e j lt le =
      elim (Bool-cases (matches_cron parts (calendar.fields candidate))) [
        | inl hit ↦ absurd (no_none (rw (within, hit) at e))
        | inr miss ↦
            at_place (search_finds_all rounds (candidate + 60_000)) miss j lt le
              (rw (within, miss) at e)
      ]
    where
      within : ltb limit candidate ≡ false
      within = ground arith

      no_none : ¬ (◌≡◌ {A = Option ℕ} (some candidate) none)
      no_none q = cc

      at_place :
          (search_from calendar parts limit rounds (candidate + 60_000) ≡ none
            → (i : ℕ) → i < rounds
            → candidate + 60_000 + i * 60_000 ≤ limit
            → IsPassedOver calendar parts (candidate + 60_000 + i * 60_000))
          → IsPassedOver calendar parts candidate
          → (j : ℕ) → j < suc rounds
          → candidate + j * 60_000 ≤ limit
          → search_from calendar parts limit rounds (candidate + 60_000) ≡ none
          → IsPassedOver calendar parts (candidate + j * 60_000)
      at_place rec miss zero lt le q = subst (IsPassedOver calendar parts) (omega arith) miss
      at_place rec miss (suc i) lt le q =
          subst (IsPassedOver calendar parts) (omega arith) (rec q i (omega arith) (omega arith))
