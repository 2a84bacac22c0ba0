-- ===== src/Logs/Run.antt =====
-- `runLogger` of services/containerd-runtime/logger.go. Each of its two goroutines has its own pipe,
-- log file and marker, which no other part of it touches: so the state is in three parts, and only
-- the order in which the goroutines report is left open.
pub mod Laws
use sandcube.Prelude.{Bool, true, false, not, if◌then◌else◌}
use sandcube.Exec.{Result, ok, err, Exec, message}
use sandcube.Paths.{Bytes, is_rooted}
use sandcube.Logs.Capture.{Feed, Sink, capture_log}

-- The log file of one stream, opened and closed; its pipe, opened within 45 seconds, and closed.
pub record Stream (W : Type 0) : Type 0 where
  pub open_output : Exec W (Unit {0})
  pub close_output : W → W
  pub open_pipe : Exec W Feed
  pub close_pipe : W → W
  pub sink : Sink W

pub record Logs (A B D : Type 0) : Type 0 where
  pub stdout : A
  pub stderr : B
  pub directory : D

module _ {W : Type 0} (stream : Stream W) where
  unfoldable pub capture_opened : Result Feed → W → Result (Unit {0}) × W
  capture_opened (err e) w = (err e, w)
  capture_opened (ok f) w =
      let o = capture_log stream.sink f w in (o.result, stream.close_pipe o.world)

  -- One goroutine, and what it sends.
  unfoldable pub collect : W → Result (Unit {0}) × W
  collect w = let (p, v) = stream.open_pipe w in capture_opened p v

-- The first error in the order of the reports, if there is one.
unfoldable pub first_error : Bool → Result (Unit {0}) → Result (Unit {0}) → Result (Unit {0})
first_error true (ok _) q = q
first_error true (err e) q = err e
first_error false r (ok _) = r
first_error false r (err e) = err e

module _ {A B D : Type 0} (out : Stream A) (errors : Stream B) (mark_done : Exec D (Unit {0})) where
  -- logs.done is written behind two captures without an error.
  unfoldable pub conclude : Result (Unit {0}) → Logs A B D → Result (Unit {0}) × Logs A B D
  conclude (err e) s = (err e, s)
  conclude (ok _) s = let (r, d) = mark_done s.directory in (r, record s { directory = d })

  unfoldable pub close_outputs : Result (Unit {0}) × Logs A B D → Result (Unit {0}) × Logs A B D
  close_outputs (r, s) =
      (r, record s { stdout = out.close_output s.stdout; stderr = errors.close_output s.stderr })

  unfoldable pub collect_both : Bool → Logs A B D → Result (Unit {0}) × Logs A B D
  collect_both order s =
      let (r, a) = collect out s.stdout in
      let (q, b) = collect errors s.stderr in
      close_outputs (conclude (first_error order r q) (record s { stdout = a; stderr = b }))

  unfoldable pub open_second :
      Bool → Result (Unit {0}) → Logs A B D → Result (Unit {0}) × Logs A B D
  open_second order (err e) s = (err e, record s { stdout = out.close_output s.stdout })
  open_second order (ok _) s = collect_both order s

  unfoldable pub open_first : Bool → Result (Unit {0}) → Logs A B D → Result (Unit {0}) × Logs A B D
  open_first order (err e) s = (err e, s)
  open_first order (ok _) s =
      let (r, b) = errors.open_output s.stderr in open_second order r (record s { stderr = b })

  unfoldable pub run_logger : Bool → Bytes → Logs A B D → Result (Unit {0}) × Logs A B D
  run_logger order dir s =
      if not (is_rooted dir)
      then (err (message "log directory must be absolute"), s)
      else (let (r, a) = out.open_output s.stdout in open_first order r (record s { stdout = a }))
