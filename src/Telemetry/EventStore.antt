-- ===== src/Telemetry/EventStore.antt =====
-- The event bus and the bounded event log (packages/telemetry-core/src/event-bus.ts and
-- event-store.ts).
use patze_control.Base.{
  ℕ, ◌-◌, Bool, true, false, not, Option, List, [], ◌∷◌, ◌++◌, map, eqb, ltb, if◌then◌else◌, length,
  drop, keep, or_else,
}
use patze_control.Telemetry.Events.{TelemetryEvent, clone_and_freeze_event}

-- How a listener's call ends, with what it has done to the state `W` outside the store.
pub data Outcome {ℓ} (W : Type ℓ) : Type ℓ where
  returned : W → Outcome W
  threw : W → Outcome W

-- `key` stands for the identity of the function.
pub record Listener {ℓ} (W : Type ℓ) : Type ℓ where
  pub key : ℕ
  pub call : TelemetryEvent → W → Outcome W

abbrev pub default_max_log_size : ℕ
default_max_log_size = 100_000

module _ {ℓ} {W : Type ℓ} where
  -- A Set keeps its elements in the order of insertion, each once.
  unfoldable pub has_listener : ℕ → List (Listener W) → Bool
  has_listener k [] = false
  has_listener k (l ∷ ls) = let rest = has_listener k ls in if eqb l.key k then true else rest

  unfoldable pub bus_subscribe : Listener W → List (Listener W) → List (Listener W)
  bus_subscribe l ls = if has_listener l.key ls then ls else ls ++ (l ∷ [])

  unfoldable pub bus_unsubscribe : ℕ → List (Listener W) → List (Listener W)
  bus_unsubscribe k ls = keep (λ l. not (eqb l.key k)) ls

  -- The `try` around a call: what the listener did before it threw stays done.
  abbrev pub settle : Outcome W → W
  settle (returned w) = w
  settle (threw w) = w

  unfoldable pub emit : List (Listener W) → TelemetryEvent → W → W
  emit [] event w = w
  emit (l ∷ ls) event w = emit ls event (settle (l.call event w))

  unfoldable pub emit_all : List (Listener W) → List TelemetryEvent → W → W
  unfolding emit
  emit_all ls [] w = w
  emit_all ls (event ∷ events) w = emit_all ls events (emit ls event w)

pub record EventStore {ℓ} (W : Type ℓ) : Type ℓ where
  pub log : List TelemetryEvent
  pub listeners : List (Listener W)
  pub max_log_size : ℕ

unfoldable pub evict_if_needed : ℕ → List TelemetryEvent → List TelemetryEvent
evict_if_needed max_log_size log =
    if ltb max_log_size (length log) then drop (length log - max_log_size) log else log

module _ {ℓ} {W : Type ℓ} where
  unfoldable pub new_store : Option ℕ → EventStore W
  new_store max_log_size = record {
    log = [];
    listeners = [];
    max_log_size = or_else max_log_size default_max_log_size;
  }

  -- The store, the state outside it and the frozen event.
  unfoldable pub append : TelemetryEvent → EventStore W → W → EventStore W × W × TelemetryEvent
  append event store w =
      let stored = clone_and_freeze_event event in
      (
        record store { log = evict_if_needed store.max_log_size (store.log ++ (stored ∷ [])) },
        emit store.listeners stored w,
        stored,
      )

  unfoldable pub append_many :
      List TelemetryEvent → EventStore W → W → EventStore W × W × List TelemetryEvent
  append_many events store w =
      let appended = map clone_and_freeze_event events in
      (
        record store { log = evict_if_needed store.max_log_size (store.log ++ appended) },
        emit_all store.listeners appended w,
        appended,
      )

  unfoldable pub subscribe : Listener W → EventStore W → EventStore W
  unfolding bus_subscribe
  subscribe l store = record store { listeners = bus_subscribe l store.listeners }

  unfoldable pub unsubscribe : ℕ → EventStore W → EventStore W
  unfolding bus_unsubscribe
  unsubscribe k store = record store { listeners = bus_unsubscribe k store.listeners }
