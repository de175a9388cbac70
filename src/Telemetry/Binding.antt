-- ===== src/Telemetry/Binding.antt =====
-- The projector stays subscribed to its node's store, and the users' listeners leave the
-- projections alone.
use patze_control.Base.{
  ℕ, suc, Bool, true, not, some, List, [], ◌∷◌, eqb, All, All-append, keep, Bool-cases, ◌≡◌, refl,
  ◌∙◌, inl, inr, arith,
}
use patze_control.Telemetry.Events.{TelemetryEvent}
use patze_control.Telemetry.EventStore.{
  Outcome, returned, threw, Listener, settle, emit, has_listener, bus_subscribe, bus_unsubscribe,
}
use patze_control.Telemetry.Projections.{ProjectionState, reduce_event}
use patze_control.Telemetry.Node.{NodeWorld, projector_listener, lift_outcome, outside_listener}

abbrev pub IsOutside : {W : Type 0} → Listener (NodeWorld W) → Type 0
IsOutside {W} l = (m : Listener W) × (l ≡ outside_listener m)

-- The projector is subscribed, first, and all other listeners are the users'.
abbrev pub IsBound : {W : Type 0} → List (Listener (NodeWorld W)) → Type 0
IsBound [] = ⊥
IsBound (l ∷ ls) = (l ≡ projector_listener) × All IsOutside ls

module _ {W : Type 0} where
  outside-projections :
      (m : Listener W) (event : TelemetryEvent) (w : NodeWorld W)
      → (settle ((outside_listener m).call event w)).projections ≡ w.projections
  unfolding outside_listener
  outside-projections m event w = settled (m.call event w.outside)
    where
      settled : (o : Outcome W) → (settle (lift_outcome w o)).projections ≡ w.projections
      settled (returned x) = refl
      settled (threw x) = refl

  emit-outside :
      (ls : List (Listener (NodeWorld W))) (event : TelemetryEvent) (w : NodeWorld W)
      → All IsOutside ls
      → (emit ls event w).projections ≡ w.projections
  unfolding emit
  emit-outside [] event w h = refl
  emit-outside (l ∷ ls) event w ((m, e), h) =
      emit-outside ls event (settle (l.call event w)) h ∙ rw e (outside-projections m event w)

  pub emit-IsBound :
      (ls : List (Listener (NodeWorld W))) (event : TelemetryEvent) (w : NodeWorld W)
      (s : ProjectionState)
      → IsBound ls
      → reduce_event w.projections event ≡ some s
      → (emit ls event w).projections ≡ s
  unfolding emit
  emit-IsBound [] event w s h e = absurd h
  emit-IsBound (l ∷ ls) event w s (b, h) e =
      emit-outside ls event (settle (l.call event w)) h ∙ rw b (projected e)
    where
      projected :
          reduce_event w.projections event ≡ some s
          → (settle ((projector_listener {W = W}).call event w)).projections ≡ s
      projected q = unfold projector_listener in rw q refl

  pub bus_subscribe-IsBound :
      (m : Listener W) (ls : List (Listener (NodeWorld W)))
      → IsBound ls
      → IsBound (bus_subscribe (outside_listener m) ls)
  unfolding bus_subscribe
  bus_subscribe-IsBound m [] h = absurd h
  bus_subscribe-IsBound m (l ∷ ls) h =
      elim (Bool-cases (has_listener (outside_listener m).key (l ∷ ls))) [
        | inl old ↦ rw old h
        | inr fresh ↦ rw fresh (h.0, All-append IsOutside ls _ h.1 ((m, refl), tt))
      ]

  keep-All :
      (p : Listener (NodeWorld W) → Bool) (ls : List (Listener (NodeWorld W)))
      → All IsOutside ls
      → All IsOutside (keep p ls)
  keep-All p [] h = tt
  keep-All p (l ∷ ls) h = elim (Bool-cases (p l)) [
    | inl t ↦ rw t (h.0, keep-All p ls h.1)
    | inr t ↦ rw t (keep-All p ls h.1)
  ]

  pub bus_unsubscribe-IsBound :
      (k : ℕ) (ls : List (Listener (NodeWorld W)))
      → IsBound ls
      → IsBound (bus_unsubscribe (suc k) ls)
  unfolding bus_unsubscribe projector_listener
  bus_unsubscribe-IsBound k [] h = absurd h
  bus_unsubscribe-IsBound k (l ∷ ls) (b, h) =
      let stays : not (eqb l.key (suc k)) ≡ true = rw b (ground arith) in
      rw stays (b, keep-All _ ls h)
