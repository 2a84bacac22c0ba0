-- ===== src/Server/Counting/Laws.antt =====
-- What the counters tell of the requests that have been answered.
use sandcube.Prelude.{ap, ℕ, suc, ◌+◌, ◌≡◌, refl, List, [], ◌∷◌, length, arith}
use sandcube.Metrics.{Counters}
use sandcube.Server.Handler.{Request, Sent, failed, replied, Json, Backend}
use sandcube.Server.Counting.{count_request, count_failure, serve_counted}

-- How many of the replies are errors.
abbrev count_failed : {J : Type 0} → List (Sent J) → ℕ
count_failed [] = 0
count_failed (failed status code ∷ replies) = suc (count_failed replies)
count_failed (replied status v ∷ replies) = count_failed replies

count_failure_lem :
    {J : Type 0} (sent : Sent J) (c : Counters)
    → ((count_failure sent c).requests ≡ c.requests)
      × ((count_failure sent c).failures ≡ c.failures + count_failed (sent ∷ []))
count_failure_lem (failed status code) c = (refl, refl)
count_failure_lem (replied status v) c = (refl, omega arith)

count_failed-cons :
    {J : Type 0} (sent : Sent J) (replies : List (Sent J))
    → count_failed (sent ∷ replies) ≡ count_failed (sent ∷ []) + count_failed replies
count_failed-cons (failed status code) replies = omega arith
count_failed-cons (replied status v) replies = omega arith

module _ {W J : Type 0} (json : Json) (runtime : Counters → ℕ → Backend W J) (now : W → ℕ) where
  -- Requests one behind the other.
  abbrev serve_each : List Request → Counters → W → List (Sent J) × Counters
  serve_each [] c w = ([], c)
  serve_each (r ∷ rs) c w =
      let (sent, c', s) = serve_counted json runtime now r c w in
      let (replies, c'') = serve_each rs c' s.world in (sent ∷ replies, c'')

  -- After requests one behind the other, each has been counted once, and exactly the error replies
  -- are counted as failures.
  serve_each_lem :
      (rs : List Request) (c : Counters) (w : W)
      → let (replies, c') = serve_each rs c w in
        (c'.requests ≡ c.requests + length rs)
        × (c'.failures ≡ c.failures + count_failed replies)
        × (length replies ≡ length rs)
  unfolding serve_counted
  serve_each_lem [] c w = (omega arith, omega arith, refl)
  serve_each_lem (r ∷ rs) c w =
      let (sent, c', s) = serve_counted json runtime now r c w in
      let (requests, failures, replies) = serve_each_lem rs c' s.world in
      let (total, errors) = count_failure_lem sent (count_request c) in
      (
        omega (arith, requests, total),
        omega (arith, failures, errors, count_failed-cons sent),
        ap suc replies,
      )
