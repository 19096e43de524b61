-- ===== src/Tests/Limits.antt =====
-- Three requests where two are allowed in a second, rejections around a failover, ports from 5004 on,
-- and a call that fails once.
use mediasoup_socket_io_audi.Prelude.{
  ℕ, zero, suc, ◌≡◌, ◌≤◌, refl, List, [], ◌∷◌, none, true, arith,
}
use mediasoup_socket_io_audi.Prelude.Redis.{Link, answers, answer_lost}
use mediasoup_socket_io_audi.Limits.WindowBounds.{between, run_calls, run_calls-between}
use mediasoup_socket_io_audi.Limits.Breaker.{
  Rejection, another, connection_closed, crash, record_rejection, record_all, record_rejection_lem,
}
use mediasoup_socket_io_audi.Limits.Ports.{allocate, Lowest, allocate_lem}
use mediasoup_socket_io_audi.Limits.Retry.{
  Attempt, resolved, rejected, retry_async, retry_async_lem,
}

abbrev requests : List (Link × ℕ)
requests = (answers, 100) ∷ (answer_lost, 200) ∷ (answers, 300) ∷ (answers, 1150) ∷ []

run_calls-between_example : between 50 1050 (run_calls 2 1 none [] requests).1 ≤ 2
run_calls-between_example =
    run_calls-between 2 1 0 50 requests
      (omega arith, (omega arith, (omega arith, (omega arith, tt))))

abbrev rejections : List (Rejection × ℕ)
rejections = (another, 100) ∷ (connection_closed, 200) ∷ (another, 900) ∷ []

record_rejection_lem_example :
    (record_rejection 3 1000 (record_all 3 1000 [] rejections) another 1000).1 ≡ crash
record_rejection_lem_example =
    (record_rejection_lem 3 1000 1000 another rejections refl
      (omega arith, (omega arith, (omega arith, omega arith)))).0

allocate_lem_example : Lowest 5004 5010 (5004 ∷ []) (allocate 5004 5010 (5004 ∷ [])).1
allocate_lem_example = (allocate_lem 5004 5010 (5004 ∷ []) (omega arith)).0

abbrev fails_once : ℕ → Attempt ℕ ℕ
fails_once zero = resolved 0
fails_once (suc zero) = rejected 7
fails_once (suc (suc n)) = resolved n

retry_async_lem_example : (retry_async (λ n. true) (λ e. true) fails_once 3 200).made ≤ 3
retry_async_lem_example = (retry_async_lem (λ n. true) (λ e. true) fails_once 3 200).1
