-- ===== src/Server/Counting.antt =====
-- The counters that `ServeHTTP` and `failure` of services/containerd-runtime/main.go add to. Each
-- addition is atomic and commutes with the others, so that a request adds them here once it is
-- answered, but for its own arrival, which `Metrics` already finds counted.
pub mod Laws
use sandcube.Prelude.{ℕ, ◌+◌, ◌-◌, ◌/◌}
use sandcube.Metrics.{Counters}
use sandcube.Server.Handler.{Request, Sent, failed, replied, Json, Backend, Serving}
use sandcube.Server.Serve.{serve}

abbrev pub count_request : Counters → Counters
count_request c = record c { requests = c.requests + 1 }

-- The addition in `failure`, which every error reply goes through.
abbrev pub count_failure : {J : Type 0} → Sent J → Counters → Counters
count_failure (failed status code) c = record c { failures = c.failures + 1 }
count_failure (replied status v) c = c

-- For two times of the monotonic clock, in nanoseconds.
abbrev pub count_duration : ℕ → ℕ → Counters → Counters
count_duration started ended c = record c {
  duration_millis = c.duration_millis + (ended - started) / 1000000;
}

module _ {W J : Type 0} (json : Json) (runtime : Counters → ℕ → Backend W J) (now : W → ℕ) where
  unfoldable pub serve_counted : Request → Counters → W → Sent J × Counters × Serving W
  serve_counted r c w =
      let counted = count_request c in
      let (sent, s) = serve json (runtime counted) r w in
      (sent, count_duration (now w) (now s.world) (count_failure sent counted), s)
