-- ===== src/Forward/Worker/Retries.antt =====
-- How often `send_with_retry` tries, and how long it pauses.
use native.Mathlib.Nat.{pow-suc, add-zero, zero-add}
use native.Mathlib.Numerals.{add-one}
use otel_logger.Prelude.{
  ℕ, zero, suc, ◌+◌, ◌*◌, ◌^◌, ◌≤◌, ◌<◌, ◌≡◌, refl, ap, ◌∙◌, none, some, List, [], ◌∷◌, Bool, true,
  false, min, max, arith,
}
use otel_logger.Forward.Worker.{
  Round, succeeded, failed, sent, Sending, round, after_pause, is_last, attempts_from, attempts,
  send_with_retry, first_delay, max_delay, next_delay,
}

exports_from-le :
    (left a delay : ℕ) (env : ℕ → Round) → (attempts_from left a delay env).exports ≤ left
unfolding attempts_from round after_pause is_last
exports_from-le zero a delay env = omega arith
exports_from-le (suc left) a delay env =
    ground (arith, exports_from-le left (a + 1) (next_delay delay) env)

-- The pause before which the error is not looked at: 200 ms, doubled each time, 30 s at most.
abbrev pub backoff : ℕ → ℕ
backoff k = min (first_delay * 2 ^ k) max_delay

next_delay-backoff : (k : ℕ) → next_delay (backoff k) ≡ backoff (k + 1)
next_delay-backoff k =
    let e : 2 ^ (k + 1) ≡ 2 ^ k * 2 = rw add-one (pow-suc 2 k) in omega (arith, e)

-- The pauses, from an attempt on: each follows a failure that can be retried, and is the backoff
-- or what the upstream asked for, whichever is longer.
abbrev pub ArePauses : (ℕ → Round) → ℕ → List ℕ → Type 0
ArePauses env a [] = Unit
ArePauses env a (p ∷ ps) =
    ((asked : ℕ) × (env a ≡ failed (some asked) false) × (p ≡ max (backoff a) asked))
    × ArePauses env (a + 1) ps

round-ArePauses :
    (env : ℕ → Round) (a delay : ℕ) (r : Round) (last : Bool) (rest : Sending)
    → env a ≡ r
    → delay ≡ backoff a
    → ArePauses env (a + 1) rest.pauses
    → ArePauses env a (round r last delay rest).pauses
unfolding round after_pause
round-ArePauses env a delay (failed (some asked) false) false rest h e ih =
    ((asked, h, ap (λ d. max d asked) e), ih)
round-ArePauses env a delay (failed (some asked) true) false rest h e ih = tt
round-ArePauses env a delay (failed (some asked) cut) true rest h e ih = tt
round-ArePauses env a delay (failed none cut) last rest h e ih = tt
round-ArePauses env a delay _ last rest h e ih = tt

attempts_from-ArePauses :
    (left a delay : ℕ) (env : ℕ → Round)
    → delay ≡ backoff a
    → ArePauses env a (attempts_from left a delay env).pauses
unfolding attempts_from
attempts_from-ArePauses zero a delay env e = tt
attempts_from-ArePauses (suc left) a delay env e =
    round-ArePauses env a delay (env a) (is_last left) _ refl e (
      attempts_from-ArePauses left (a + 1) (next_delay delay) env
        (ap next_delay e ∙ next_delay-backoff a))

-- However the attempts go, one call of `send_with_retry` exports its request at most once and
-- `retry_max` times more, and every pause is the exponential backoff or what the upstream asked for,
-- whichever is longer. What is exported again at shutdown is another call.
pub send_with_retry_bounds :
    (retry_max : ℕ) (env : ℕ → Round)
    → ((send_with_retry retry_max env).exports ≤ retry_max + 1)
      × ArePauses env 0 (send_with_retry retry_max env).pauses
unfolding send_with_retry
send_with_retry_bounds n env = (
  omega (arith, exports_from-le (attempts n) 0 first_delay env),
  attempts_from-ArePauses (attempts n) 0 first_delay env refl,
)

-- A failure that can be retried, and a pause that is not cut short.
abbrev pub IsRetried : Round → Type 0
IsRetried (failed (some asked) false) = Unit
IsRetried _ = ⊥

-- One more attempt before a sending that succeeds.
abbrev IsSentAfter : ℕ → Sending → Type 0
IsSentAfter n s = (s.result ≡ sent) × (s.exports ≡ n)

round-IsSentAfter :
    (r : Round) (delay n : ℕ) (rest : Sending)
    → IsRetried r
    → IsSentAfter n rest
    → IsSentAfter (n + 1) (round r false delay rest)
unfolding round after_pause
round-IsSentAfter (failed (some asked) false) delay n rest q h = (h.0, omega (arith, h.1))
round-IsSentAfter (failed (some asked) true) delay n rest q h = absurd q
round-IsSentAfter (failed none cut) delay n rest q h = absurd q
round-IsSentAfter _ delay n rest q h = absurd q

shift : (a j : ℕ) → a + suc j ≡ a + 1 + j
shift a j = omega arith

attempts_from_sent :
    (left a delay : ℕ) (env : ℕ → Round) (k : ℕ)
    → k < left
    → ((j : ℕ) → j < k → IsRetried (env (a + j)))
    → env (a + k) ≡ succeeded
    → IsSentAfter (k + 1) (attempts_from left a delay env)
unfolding attempts_from is_last
attempts_from_sent zero a delay env k b h e = absurd (omega arith)
attempts_from_sent (suc left) a delay env zero b h e =
    let e' : env a ≡ succeeded = rw add-zero at e in rw e' (unfold round in (refl, refl))
attempts_from_sent (suc zero) a delay env (suc k) b h e = absurd (omega arith)
attempts_from_sent (suc (suc left)) a delay env (suc k) b h e =
    let later =
      attempts_from_sent (suc left) (a + 1) (next_delay delay) env k (omega arith)
        (λ j b'. rw (← shift a j) (h (suc j) (omega arith))) (rw (← shift a k) e) in
    let n : k + 1 + 1 ≡ suc k + 1 = omega arith in
    rw (← n) (
      unfold is_last in
      round-IsSentAfter (env a) delay (k + 1) _ (rw add-zero at (h 0 (omega arith))) later)

-- An upstream that accepts the request at some attempt within the limit, after failures that can be
-- retried and with no cancellation, gets it at that attempt.
pub send_with_retry_sent :
    (retry_max : ℕ) (env : ℕ → Round) (k : ℕ)
    → k < attempts retry_max
    → ((j : ℕ) → j < k → IsRetried (env j))
    → env k ≡ succeeded
    → ((send_with_retry retry_max env).result ≡ sent)
      × ((send_with_retry retry_max env).exports ≡ k + 1)
unfolding send_with_retry
send_with_retry_sent n env k b h e =
    attempts_from_sent (attempts n) 0 first_delay env k b (λ j b'. rw zero-add (h j b'))
      (rw zero-add e)
