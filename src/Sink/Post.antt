-- ===== src/Sink/Post.antt =====
-- Posting a batch with retries: `postWithRetry` of packages/telemetry-core/src/transports.ts. The
-- server's answers are a parameter.
use patze_control.Base.{
  ℕ, zero, suc, ◌+◌, ◌*◌, min, Bool, true, false, not, ◌&&◌, ◌||◌, List, [], ◌∷◌, ◌++◌, eqb, leb,
  if◌then◌else◌,
}
use patze_control.Value.{Value}

-- How a request ends: with a status, or with an exception of `fetch`.
pub data Response : Type 0 where
  answered : ℕ → Response
  failed : Response

-- The answer to the batch of each attempt, and to each single event of each attempt.
pub record Server : Type 0 where
  pub batch : ℕ → Response
  pub single : ℕ → ℕ → Response

-- `response.ok`.
abbrev pub is_ok : ℕ → Bool
is_ok status = leb 200 status && leb status 299

unfoldable pub is_transient_status : ℕ → Bool
is_transient_status status = leb 500 status || eqb status 429

-- How one attempt ends: `return true`, `return false`, or on to the retry.
pub data AttemptEnd : Type 0 where
  accepted refused retried : AttemptEnd

-- An attempt, with the events that the server has accepted in it.
pub record Attempt : Type 0 where
  pub end : AttemptEnd
  pub received : List Value

abbrev pub end_of_refusal : ℕ → AttemptEnd
end_of_refusal status = if is_transient_status status then retried else refused

-- The loop over the events, for a server without the batch route.
unfoldable pub post_singles : Server → ℕ → ℕ → List Value → Attempt
unfolding is_transient_status
post_singles server attempt i [] = record { end = accepted; received = [] }
post_singles server attempt i (event ∷ events) =
    let rest = post_singles server attempt (i + 1) events in
    elim (server.single attempt i) [
      | failed ↦ record { end = retried; received = [] }
      | answered status ↦
          if is_ok status
          then record { end = rest.end; received = event ∷ rest.received }
          else record { end = end_of_refusal status; received = [] }
    ]

unfoldable pub post_once : Server → ℕ → List Value → Attempt
unfolding post_singles
post_once server attempt events = elim (server.batch attempt) [
  | failed ↦ record { end = retried; received = [] }
  | answered status ↦
      if is_ok status
      then record { end = accepted; received = events }
      else if eqb status 404 || eqb status 405
      then post_singles server attempt 0 events
      else record { end = end_of_refusal status; received = [] }
]

unfoldable pub two_to : ℕ → ℕ
two_to zero = 1
two_to (suc n) = 2 * two_to n

-- The wait behind an attempt; the jitter is the caller's.
unfoldable pub retry_delay : ℕ → ℕ → ℕ → ℕ
unfolding two_to
retry_delay max_backoff_ms attempt jitter = min max_backoff_ms (500 * two_to attempt) + jitter

-- What the posting of a batch gives: the result, the number of attempts, all that the server has
-- accepted, and whether the loop has ended; if not, the rounds did not suffice.
pub record Posted : Type 0 where
  pub ok : Bool
  pub attempts : ℕ
  pub received : List Value
  pub ended : Bool

-- The loop of `postWithRetry`, on a number of rounds.
unfoldable pub retry_from : Server → ℕ → List Value → ℕ → ℕ → Posted
unfolding post_once
retry_from server max_retries events zero attempt = record {
  ok = false;
  attempts = 0;
  received = [];
  ended = false;
}
retry_from server max_retries events (suc rounds) attempt =
    let later = retry_from server max_retries events rounds (attempt + 1) in
    let this = post_once server attempt events in
    if not (leb attempt max_retries)
    then record { ok = false; attempts = 0; received = []; ended = true }
    else elim this.end [
      | accepted ↦ record { ok = true; attempts = 1; received = this.received; ended = true }
      | refused ↦ record { ok = false; attempts = 1; received = this.received; ended = true }
      | retried ↦
          if eqb attempt max_retries
          then record { ok = false; attempts = 1; received = this.received; ended = true }
          else record {
            ok = later.ok;
            attempts = later.attempts + 1;
            received = this.received ++ later.received;
            ended = later.ended;
          }
    ]

-- The loop makes `maxRetries + 1` rounds at most; it is given one more.
unfoldable pub post_with_retry : Server → ℕ → List Value → Posted
unfolding retry_from
post_with_retry server max_retries events = retry_from server max_retries events (max_retries + 2) 0
