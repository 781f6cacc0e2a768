-- ===== src/Forward/Worker/Accounts.antt =====
-- Every request that a route's worker is handed ends as sent, failed or dropped, once.
use otel_logger.Prelude.{
  ℕ, ◌+◌, ◌^◌, ◌≤◌, ◌<◌, ◌≡◌, refl, List, [], ◌∷◌, if◌then◌else◌, total, arith,
}
use otel_logger.Forward.Worker.{
  RouteMetrics, Request, Turn, shutdown, job, requests_of, on_result, run_loop, Drain, on_drained,
  drain_one, drain_loop, drain_remaining, worker, counter_add,
}

abbrev pub accounted : RouteMetrics → ℕ
accounted m = m.sent_total + m.failed_total + m.dropped_total

-- A request that there is something to send of.
abbrev pub due : Request → ℕ
due r = if r.is_empty then 0 else 1

module _ (r : Request) (d : Drain) where
  drain_one_accounts :
      accounted d.metrics + due r < 2 ^ 64
      → accounted (drain_one r d).metrics + (drain_one r d).abandoned
        ≡ accounted d.metrics + d.abandoned + due r
  unfolding drain_one on_drained
  drain_one_accounts h = ground arith

  drain_one-le :
      accounted d.metrics + due r < 2 ^ 64
      → accounted (drain_one r d).metrics ≤ accounted d.metrics + due r
  unfolding drain_one on_drained
  drain_one-le h = ground arith

  dropped-drain_one : (drain_one r d).metrics.dropped_total ≡ d.metrics.dropped_total
  unfolding drain_one on_drained
  dropped-drain_one = ground arith

drain_loop_accounts :
    (rs : List Request) (d : Drain)
    → accounted d.metrics + d.abandoned + total due rs < 2 ^ 64
    → accounted (drain_loop rs d).metrics + (drain_loop rs d).abandoned
      ≡ accounted d.metrics + d.abandoned + total due rs
unfolding drain_loop
drain_loop_accounts [] d h = omega arith
drain_loop_accounts (r ∷ rs) d h =
    let one = drain_one_accounts r d (omega arith) in
    omega (arith, drain_loop_accounts rs (drain_one r d) (omega (arith, one)), one)

drain_remaining_accounts :
    (rs : List Request) (m : RouteMetrics)
    → accounted m + total due rs < 2 ^ 64
    → accounted (drain_remaining rs m) ≡ accounted m + total due rs
unfolding drain_remaining
drain_remaining_accounts rs m h =
    let start : Drain = record { metrics = m; abandoned = 0 } in
    omega (arith, drain_loop_accounts rs start (omega arith))

run_loop_accounts :
    (retry_max : ℕ) (ts : List Turn) (m : RouteMetrics)
    → accounted m + total due (requests_of ts) < 2 ^ 64
    → accounted (run_loop retry_max ts m).metrics + total due (run_loop retry_max ts m).remaining
      ≡ accounted m + total due (requests_of ts)
unfolding run_loop on_result requests_of
run_loop_accounts n [] m h = omega arith
run_loop_accounts n (shutdown ∷ ts) m h = refl
run_loop_accounts n (job r ∷ ts) m h = ground (
  arith,
  run_loop_accounts n ts m,
  run_loop_accounts n ts (record m { sent_total = counter_add m.sent_total 1 }),
  run_loop_accounts n ts (record m { failed_total = counter_add m.failed_total 1 }),
)

-- While the counters have room, they grow together by the number of non-empty requests that were
-- in the queue, wherever the shutdown falls, whatever the upstream answers and however late the
-- drain is.
pub worker_accounts :
    (retry_max : ℕ) (ts : List Turn) (m : RouteMetrics)
    → accounted m + total due (requests_of ts) < 2 ^ 64
    → accounted (worker retry_max ts m) ≡ accounted m + total due (requests_of ts)
unfolding worker
worker_accounts n ts m h =
    let s = run_loop n ts m in
    let e = run_loop_accounts n ts m h in
    omega (arith, drain_remaining_accounts s.remaining s.metrics (omega (arith, e)), e)
