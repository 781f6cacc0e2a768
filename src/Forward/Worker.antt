-- ===== src/Forward/Worker.antt =====
-- src/forward/worker.rs: the task of a route sends its requests with retries, and at shutdown what
-- is left in its queue.
pub mod Retries
pub mod Accounts
use otel_logger.Prelude.{
  ℕ, zero, suc, ◌+◌, ◌*◌, ◌%◌, ◌^◌, ◌-◌, Option, none, some, List, [], ◌∷◌, Bool, true, false, leb,
  if◌then◌else◌, min, max,
}

-- How a round of the loop in `send_with_retry` goes: the token is cancelled before it or while the
-- client exports; the export succeeds; or it fails, with the delay of `retry_delay` when the error
-- can be retried, and the token is cancelled during the pause or not.
pub data Round : Type 0 where
  cancelled_before cancelled_during succeeded : Round
  failed : Option ℕ → Bool → Round

pub data SendResult : Type 0 where
  sent send_cancelled send_failed : SendResult

-- What a call did: its result, the exports that it began, and its pauses in milliseconds.
pub record Sending : Type 0 where
  pub result : SendResult
  pub exports : ℕ
  pub pauses : List ℕ

-- The first pause and the longest, in milliseconds.
abbrev pub first_delay : ℕ
first_delay = 200

abbrev pub max_delay : ℕ
max_delay = 30000

-- `delay = (delay * 2).min(Duration::from_secs(30))`
abbrev pub next_delay : ℕ → ℕ
next_delay delay = min (delay * 2) max_delay

abbrev pub stop : SendResult → ℕ → Sending
stop r n = record { result = r; exports = n; pauses = [] }

unfoldable pub after_pause : ℕ → Sending → Sending
after_pause pause s = record {
  result = s.result;
  exports = s.exports + 1;
  pauses = pause ∷ s.pauses;
}

-- The end of a round: what is left of the loop is `rest`.
unfoldable pub round : Round → Bool → ℕ → Sending → Sending
round cancelled_before last delay rest = stop send_cancelled 0
round cancelled_during last delay rest = stop send_cancelled 1
round succeeded last delay rest = stop sent 1
round (failed none cut) last delay rest = stop send_failed 1
round (failed (some after) cut) true delay rest = stop send_failed 1
round (failed (some after) true) false delay rest = stop send_cancelled 1
round (failed (some after) false) false delay rest = after_pause (max delay after) rest

unfoldable pub is_last : ℕ → Bool
is_last zero = true
is_last (suc n) = false

-- `for attempt in 0..attempts`, with the attempts that are left.
unfoldable pub attempts_from : ℕ → ℕ → ℕ → (ℕ → Round) → Sending
attempts_from zero attempt delay env = stop send_failed 0
attempts_from (suc left) attempt delay env =
    let rest = attempts_from left (attempt + 1) (next_delay delay) env in
    round (env attempt) (is_last left) delay rest

-- `retry_max.saturating_add(1)` of a `u32`
abbrev pub attempts : ℕ → ℕ
attempts retry_max = min (retry_max + 1) (2 ^ 32 - 1)

unfoldable pub send_with_retry : ℕ → (ℕ → Round) → Sending
send_with_retry retry_max env = attempts_from (attempts retry_max) 0 first_delay env

pub record RouteMetrics : Type 0 where
  pub sent_total : ℕ
  pub failed_total : ℕ
  pub dropped_total : ℕ

abbrev pub counter_add : ℕ → ℕ → ℕ
counter_add n k = (n + k) % 2 ^ 64

abbrev pub add_sent : RouteMetrics → RouteMetrics
add_sent m = record m { sent_total = counter_add m.sent_total 1 }

abbrev pub add_failed : RouteMetrics → RouteMetrics
add_failed m = record m { failed_total = counter_add m.failed_total 1 }

-- A request in the queue: whether it is empty, how its sending goes, and how it goes when it is
-- sent again or for the first time after the shutdown; `late` says that the drain's deadline has
-- passed before its turn.
pub record Request : Type 0 where
  pub is_empty : Bool
  pub env : ℕ → Round
  pub late : Bool
  pub drain_env : ℕ → Round

-- What `recv` and the shutdown token give the loop of `run`.
pub data Turn : Type 0 where
  shutdown : Turn
  job : Request → Turn

-- Where the loop ends: the metrics, and what is left to drain, the interrupted request first.
pub record Stopped : Type 0 where
  pub metrics : RouteMetrics
  pub remaining : List Request

unfoldable pub requests_of : List Turn → List Request
requests_of [] = []
requests_of (shutdown ∷ ts) = requests_of ts
requests_of (job r ∷ ts) = r ∷ requests_of ts

-- The branches on the result of a sending in `run`.
unfoldable pub on_result :
    SendResult → Request → List Turn → RouteMetrics → (RouteMetrics → Stopped) → Stopped
on_result sent r ts m go = go (add_sent m)
on_result send_cancelled r ts m go = record { metrics = m; remaining = r ∷ requests_of ts }
on_result send_failed r ts m go = go (add_failed m)

-- The loop of `run`; the channel closes when no turn is left.
unfoldable pub run_loop : ℕ → List Turn → RouteMetrics → Stopped
run_loop retry_max [] m = record { metrics = m; remaining = [] }
run_loop retry_max (shutdown ∷ ts) m = record { metrics = m; remaining = requests_of ts }
run_loop retry_max (job r ∷ ts) m =
    let sending =
      on_result (send_with_retry retry_max r.env).result r ts m (run_loop retry_max ts) in
    let skipped = run_loop retry_max ts m in if r.is_empty then skipped else sending

pub record Drain : Type 0 where
  pub metrics : RouteMetrics
  pub abandoned : ℕ

-- The branches on the result of a sending in `drain_remaining`.
unfoldable pub on_drained : SendResult → Drain → Drain
on_drained sent d = record d { metrics = add_sent d.metrics }
on_drained send_cancelled d = record d { abandoned = d.abandoned + 1 }
on_drained send_failed d = record d { metrics = add_failed d.metrics }

unfoldable pub drain_one : Request → Drain → Drain
drain_one r d =
    if r.is_empty
    then d
    else if r.late
    then record d { abandoned = d.abandoned + 1 }
    else on_drained (send_with_retry 0 r.drain_env).result d

unfoldable pub drain_loop : List Request → Drain → Drain
drain_loop [] d = d
drain_loop (r ∷ rs) d = drain_loop rs (drain_one r d)

unfoldable pub drain_remaining : List Request → RouteMetrics → RouteMetrics
drain_remaining rs m =
    let d = drain_loop rs (record { metrics = m; abandoned = 0 }) in
    record d.metrics { dropped_total = counter_add d.metrics.dropped_total d.abandoned }

-- `run`
unfoldable pub worker : ℕ → List Turn → RouteMetrics → RouteMetrics
worker retry_max ts m = let s = run_loop retry_max ts m in drain_remaining s.remaining s.metrics
