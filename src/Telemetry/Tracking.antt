-- ===== src/Telemetry/Tracking.antt =====
-- What the projections say of a session or a run, from the events about it alone.
use patze_control.Base.{
  Bool, true, false, ◌&&◌, Option, none, some, List, [], ◌∷◌, if◌then◌else◌, keep, Bool-cases,
  Option-cases, ◌≡◌, refl, sym, ap, ◌∙◌, inl, inr, arith,
}
use mathlib.Core.Option.{some-injective}
use patze_control.Value.{Value, get, same_key}
use patze_control.Value.Laws.{same_key→eq}
use patze_control.Telemetry.Events.{
  TelemetryEventType, session_state_changed, run_state_changed, TelemetryEvent,
}
use patze_control.Telemetry.Projections.{
  ProjectionState, SessionProjection, RunProjection, create_empty_state, map_get, map_set,
  session_after, run_after, reduce_event, build_from, build_telemetry_snapshot,
}

module _ {ℓ} {V : Type ℓ} where
  pub map_get-map_set :
      (k j : Value) (v : V) (m : List (Value × V))
      → map_get j (map_set k v m) ≡ (if same_key k j then some v else map_get j m)
  unfolding map_get map_set
  map_get-map_set k j v [] = refl
  map_get-map_set k j v ((i, w) ∷ m) = elim (Bool-cases (same_key i k)) [
    | inl e ↦ rw e (rw (same_key→eq i k e) (once (same_key k j)))
    | inr e ↦ rw e (elim (Bool-cases (same_key i j)) [
      | inl f ↦ rw f (missed f e)
      | inr f ↦ rw f (map_get-map_set k j v m)
    ])
  ]
    where
      once :
          (b : Bool)
          → (if b then some v else map_get j m)
            ≡ (if b then some v else (if b then some w else map_get j m))
      once true = refl
      once false = refl

      missed :
          same_key i j ≡ true
          → same_key i k ≡ false
          → some w ≡ (if same_key k j then some v else some w)
      missed f g = elim (Bool-cases (same_key k j)) [
        | inl h ↦ absurd (
            clash (rw (same_key→eq i j f ∙ sym (same_key→eq k j h)) at g)
              (rw (← same_key→eq k j h) at h))
        | inr h ↦ rw h refl
      ]
        where
          clash : same_key k k ≡ false → same_key k k ≡ true → ⊥
          clash a b = cc

abbrev is_session_type : TelemetryEventType → Bool
is_session_type session_state_changed = true
is_session_type _ = false

abbrev is_run_type : TelemetryEventType → Bool
is_run_type run_state_changed = true
is_run_type _ = false

-- The events that change a session, and those that change a run.
abbrev pub is_about_session : Value → TelemetryEvent → Bool
is_about_session k event =
    is_session_type event.event_type && same_key (get event.payload "sessionId") k

abbrev pub is_about_run : Value → TelemetryEvent → Bool
is_about_run k event = is_run_type event.event_type && same_key (get event.payload "runId") k

pub last_of : TelemetryEvent → List TelemetryEvent → TelemetryEvent
last_of e [] = e
last_of e (x ∷ xs) = last_of x xs

-- A session as its events show it: created at the time of the first, otherwise as the last says.
abbrev pub session_view : List TelemetryEvent → Option SessionProjection
session_view [] = none
session_view (e ∷ es) = some (record (session_after none (last_of e es)) { created_at = e.ts })

abbrev pub run_view : List TelemetryEvent → Option RunProjection
run_view [] = none
run_view (e ∷ es) = some (record (run_after none (last_of e es)) { created_at = e.ts })

abbrev session_step : Value → Option SessionProjection → TelemetryEvent → Option SessionProjection
session_step k current event =
    if is_about_session k event then some (session_after current event) else current

abbrev run_step : Value → Option RunProjection → TelemetryEvent → Option RunProjection
run_step k current event = if is_about_run k event then some (run_after current event) else current

reduce_event-sessions :
    (k : Value) (s s' : ProjectionState) (event : TelemetryEvent)
    → reduce_event s event ≡ some s'
    → map_get k s'.sessions ≡ session_step k (map_get k s.sessions) event
unfolding reduce_event
reduce_event-sessions k s s' event e = ground (
  arith,
  map_get-map_set (get event.payload "sessionId") k
      (session_after (map_get (get event.payload "sessionId") s.sessions) event) s.sessions,
  same_key→eq (get event.payload "sessionId") k,
)

reduce_event-runs :
    (k : Value) (s s' : ProjectionState) (event : TelemetryEvent)
    → reduce_event s event ≡ some s'
    → map_get k s'.runs ≡ run_step k (map_get k s.runs) event
unfolding reduce_event
reduce_event-runs k s s' event e = ground (
  arith,
  map_get-map_set (get event.payload "runId") k
      (run_after (map_get (get event.payload "runId") s.runs) event) s.runs,
  same_key→eq (get event.payload "runId") k,
)

abbrev fold_steps {ℓ} :
    {P : Type ℓ}
    → (Option P → TelemetryEvent → Option P)
    → Option P
    → List TelemetryEvent
    → Option P
fold_steps step current [] = current
fold_steps step current (e ∷ es) = fold_steps step (step current e) es

-- A projection that each event steps is, in the end, stepped by all of them.
build_from-fold {ℓ} :
    {P : Type ℓ} (view : ProjectionState → Option P) (step : Option P → TelemetryEvent → Option P)
    → ((s s' : ProjectionState) (e : TelemetryEvent)
        → reduce_event s e ≡ some s'
        → view s' ≡ step (view s) e)
    → (s s' : ProjectionState) (es : List TelemetryEvent) → build_from s es ≡ some s'
    → view s' ≡ fold_steps step (view s) es
unfolding build_from
build_from-fold view step h s s' [] e = ap view (sym (some-injective _ _ e))
build_from-fold view step h s s' (x ∷ xs) e = elim (Option-cases (reduce_event s x)) [
  | inl failed ↦ absurd (stuck (rw failed at e))
  | inr (t, found) ↦
      build_from-fold view step h t s' xs (rw found at e)
      ∙ ap (λ c. fold_steps step c xs) (h s t x found)
]
  where
    stuck : ¬ (◌≡◌ {A = Option ProjectionState} none (some s'))
    stuck r = cc

sessions_folded :
    (k : Value) (es : List TelemetryEvent) (first last : TelemetryEvent)
    → fold_steps
        (session_step k)
        (some (record (session_after none last) { created_at = first.ts }))
        es
      ≡ some (record (session_after none (last_of last (keep (is_about_session k) es))) {
        created_at = first.ts;
      })
unfolding last_of session_after
sessions_folded k [] first last = refl
sessions_folded k (e ∷ es) first last = elim (Bool-cases (is_about_session k e)) [
  | inl about ↦ rw about (sessions_folded k es first e)
  | inr other ↦ rw other (sessions_folded k es first last)
]

runs_folded :
    (k : Value) (es : List TelemetryEvent) (first last : TelemetryEvent)
    → fold_steps (run_step k) (some (record (run_after none last) { created_at = first.ts })) es
      ≡ some (record (run_after none (last_of last (keep (is_about_run k) es))) {
        created_at = first.ts;
      })
unfolding last_of run_after
runs_folded k [] first last = refl
runs_folded k (e ∷ es) first last = elim (Bool-cases (is_about_run k e)) [
  | inl about ↦ rw about (runs_folded k es first e)
  | inr other ↦ rw other (runs_folded k es first last)
]

session_view-fold :
    (k : Value) (es : List TelemetryEvent)
    → fold_steps (session_step k) none es ≡ session_view (keep (is_about_session k) es)
session_view-fold k [] = refl
session_view-fold k (e ∷ es) = elim (Bool-cases (is_about_session k e)) [
  | inl about ↦ rw about (started e ∙ sessions_folded k es e e)
  | inr other ↦ rw other (session_view-fold k es)
]
  where
    started :
        (e : TelemetryEvent)
        → fold_steps (session_step k) (some (session_after none e)) es
          ≡ fold_steps
              (session_step k)
              (some (record (session_after none e) { created_at = e.ts }))
              es
    started e = unfold session_after in refl

run_view-fold :
    (k : Value) (es : List TelemetryEvent)
    → fold_steps (run_step k) none es ≡ run_view (keep (is_about_run k) es)
run_view-fold k [] = refl
run_view-fold k (e ∷ es) = elim (Bool-cases (is_about_run k e)) [
  | inl about ↦ rw about (started e ∙ runs_folded k es e e)
  | inr other ↦ rw other (run_view-fold k es)
]
  where
    started :
        (e : TelemetryEvent)
        → fold_steps (run_step k) (some (run_after none e)) es
          ≡ fold_steps (run_step k) (some (record (run_after none e) { created_at = e.ts })) es
    started e = unfold run_after in refl

-- The snapshot of a list of events shows each session as the events about it do, whatever other
-- events stand between them: its creation is the time of the first, and its machine, agent, state,
-- update and end are those of the last. A session with no events is not in the snapshot.
pub snapshot_session :
    (k : Value) (es : List TelemetryEvent) (s : ProjectionState)
    → build_telemetry_snapshot es ≡ some s
    → map_get k s.sessions ≡ session_view (keep (is_about_session k) es)
unfolding build_telemetry_snapshot map_get
snapshot_session k es s e =
    build_from-fold (λ t. map_get k t.sessions) (session_step k) (reduce_event-sessions k)
      create_empty_state s es e
    ∙ session_view-fold k es

-- The same of a run, with the reason of its failure.
pub snapshot_run :
    (k : Value) (es : List TelemetryEvent) (s : ProjectionState)
    → build_telemetry_snapshot es ≡ some s
    → map_get k s.runs ≡ run_view (keep (is_about_run k) es)
unfolding build_telemetry_snapshot map_get
snapshot_run k es s e =
    build_from-fold (λ t. map_get k t.runs) (run_step k) (reduce_event-runs k) create_empty_state s
      es e
    ∙ run_view-fold k es
