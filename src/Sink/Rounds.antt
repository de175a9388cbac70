-- ===== src/Sink/Rounds.antt =====
-- How often a batch is posted, and what the server has then got.
use mathlib.Core.List.{append_assoc}
use patze_control.Base.{
  ℕ, zero, suc, ◌+◌, ◌≤◌, true, false, ◌||◌, List, [], ◌∷◌, ◌++◌, eqb, leb, if◌then◌else◌,
  Bool-cases, ◌≡◌, ◌⊎◌, refl, sym, ◌∙◌, ap, inl, inr, arith,
}
use patze_control.Value.{Value}
use patze_control.Sink.Post.{
  Response, answered, failed, Server, AttemptEnd, accepted, refused, retried, Attempt, post_singles,
  post_once, Posted, retry_from, post_with_retry,
}

-- The server knows the batch route: no answer sends the sink to the single route.
abbrev pub HasBatchRoute : Server → Type 0
HasBatchRoute server =
    (attempt status : ℕ)
    → server.batch attempt ≡ answered status
    → (eqb status 404 || eqb status 405) ≡ false

singles_accepted :
    (server : Server) (attempt i : ℕ) (events : List Value)
    → (post_singles server attempt i events).end ≡ accepted
    → (post_singles server attempt i events).received ≡ events
unfolding post_singles
singles_accepted server attempt i [] e = refl
singles_accepted server attempt i (event ∷ events) e =
    ground (arith, singles_accepted server attempt (i + 1) events)

post_once_accepted :
    (server : Server) (attempt : ℕ) (events : List Value)
    → (post_once server attempt events).end ≡ accepted
    → (post_once server attempt events).received ≡ events
unfolding post_once
post_once_accepted server attempt events e =
    ground (arith, singles_accepted server attempt 0 events)

-- Without the single route an attempt hands over all events or none.
abbrev AllOrNone : List Value → Attempt → Type 0
AllOrNone events this =
    ((this.end ≡ accepted) × (this.received ≡ events))
    ⊎ ((this.end ≡ refused) × (this.received ≡ []))
    ⊎ ((this.end ≡ retried) × (this.received ≡ []))

Response-cases : (r : Response) → (r ≡ failed) ⊎ ((status : ℕ) × (r ≡ answered status))
Response-cases failed = inl refl
Response-cases (answered status) = inr (status, refl)

AttemptEnd-cases : (e : AttemptEnd) → (e ≡ accepted) ⊎ (e ≡ refused) ⊎ (e ≡ retried)
AttemptEnd-cases e = ground arith

post_once_cases :
    (server : Server) (attempt : ℕ) (events : List Value)
    → HasBatchRoute server
    → AllOrNone events (post_once server attempt events)
unfolding post_once
post_once_cases server attempt events route = elim (Response-cases (server.batch attempt)) [
  | inl failure ↦ ground arith
  | inr (status, answer) ↦
      let known : (eqb status 404 || eqb status 405) ≡ false = route attempt status answer in
      ground arith
]

-- What the posting of a batch promises.
pub record IsDelivery (server : Server) (max_retries : ℕ) (events : List Value) (posted : Posted)
    : Type 0 where
  pub ended : posted.ended ≡ true
  pub bounded : posted.attempts ≤ max_retries + 1
  pub delivered : posted.ok ≡ true → (earlier : List Value) × (posted.received ≡ earlier ++ events)

retry_from-attempts :
    (server : Server) (max_retries : ℕ) (events : List Value) (rounds attempt : ℕ)
    → attempt ≤ max_retries + 1
    → max_retries + 2 ≤ rounds + attempt
    → let posted = retry_from server max_retries events rounds attempt in
      (posted.ended ≡ true) × (posted.attempts + attempt ≤ max_retries + 1)
unfolding retry_from
retry_from-attempts server max_retries events zero attempt h enough =
    absurd (omega (arith, h, enough))
retry_from-attempts server max_retries events (suc rounds) attempt h enough =
    ground (arith, retry_from-attempts server max_retries events rounds (attempt + 1))

retry_from_once :
    (server : Server) (max_retries : ℕ) (events : List Value) (rounds attempt : ℕ)
    → HasBatchRoute server
    → let posted = retry_from server max_retries events rounds attempt in
      posted.received ≡ (if posted.ok then events else [])
unfolding retry_from
retry_from_once server max_retries events zero attempt route = refl
retry_from_once server max_retries events (suc rounds) attempt route = ground (
  arith,
  post_once_cases server attempt events route,
  retry_from_once server max_retries events rounds (attempt + 1) route,
)

retry_from_delivers :
    (server : Server) (max_retries : ℕ) (events : List Value) (rounds attempt : ℕ)
    → let posted = retry_from server max_retries events rounds attempt in
      posted.ok ≡ true → (earlier : List Value) × (posted.received ≡ earlier ++ events)
unfolding retry_from
retry_from_delivers server max_retries events zero attempt e = cc
retry_from_delivers server max_retries events (suc rounds) attempt e =
    elim (Bool-cases (leb attempt max_retries)) [
      | inr over ↦ cc (rw (retry_from, over) at e)
      | inl going ↦ elim (AttemptEnd-cases (post_once server attempt events).end) [
        | inl done ↦
            rw (retry_from, going, done) ([], post_once_accepted server attempt events done)
        | inr (inl refusal) ↦ cc (rw (retry_from, going, refusal) at e)
        | inr (inr again) ↦ elim (Bool-cases (eqb attempt max_retries)) [
          | inl last ↦ cc (rw (retry_from, going, again, last) at e)
          | inr more ↦
              let (earlier, q) =
                retry_from_delivers server max_retries events rounds (attempt + 1)
                  (rw (retry_from, going, again, more) at e) in
              rw (retry_from, going, again, more)
                (
                  (post_once server attempt events).received ++ earlier,
                  ap (λ l. (post_once server attempt events).received ++ l) q
                      ∙ sym
                          (append_assoc (post_once server attempt events).received earlier events),
                )
        ]
      ]
    ]

-- A server with the batch route has each event of the batch once, or none.
pub post_with_retry_once :
    (server : Server) (max_retries : ℕ) (events : List Value)
    → HasBatchRoute server
    → let posted = post_with_retry server max_retries events in
      posted.received ≡ (if posted.ok then events else [])
unfolding post_with_retry
post_with_retry_once server max_retries events route =
    retry_from_once server max_retries events (max_retries + 2) 0 route

-- The loop that posts a batch ends, after `maxRetries + 1` attempts at the latest, whatever the server
-- answers.
-- Where it succeeds, the server has accepted all events of the batch, in order and as the last.
pub post_with_retry-IsDelivery :
    (server : Server) (max_retries : ℕ) (events : List Value)
    → IsDelivery server max_retries events (post_with_retry server max_retries events)
unfolding post_with_retry
post_with_retry-IsDelivery server max_retries events = record {
  ended =
      (retry_from-attempts server max_retries events (max_retries + 2) 0 (omega arith)
        (omega arith)).0;
  bounded = omega (
    arith,
    (retry_from-attempts server max_retries events (max_retries + 2) 0 (omega arith)
        (omega arith)).1,
  );
  delivered = retry_from_delivers server max_retries events (max_retries + 2) 0;
}
