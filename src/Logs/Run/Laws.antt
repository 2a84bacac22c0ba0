-- ===== src/Logs/Run/Laws.antt =====
-- What the collector's last marker says of both logs.
use mathlib.Core.Path.{subst}
use sandcube.Prelude.{
  ℕ, ◌-◌, ◌≡◌, refl, ◌∙◌, sym, Bool, true, false, ◌||◌, List, none, ◌++◌, arith, length, take, ltb,
  Bool-cases, inl, inr,
}
use sandcube.Exec.{Err, message, Result, ok, err, Exec, succeeded}
use sandcube.Paths.{Bytes, is_rooted}
use sandcube.Logs.Capture.{Feed, log_limit}
use sandcube.Logs.Capture.Laws.{IsFile, feed_bytes, feed_end, capture_log_lem}
use sandcube.Logs.Run.{
  Stream, Logs, capture_opened, collect, first_error, conclude, close_outputs, collect_both,
  open_second, open_first, run_logger,
}

-- The log file behaves as documented, and opening and closing leave what is in it.
pub record IsStream {W : Type 0} (stream : Stream W) : Type 0 where
  pub file : IsFile stream.sink
  pub content-open_output : (w : W) → file.content (stream.open_output w).1 ≡ file.content w
  pub marked-open_output : (w : W) → file.marked (stream.open_output w).1 ≡ file.marked w
  pub content-close_output : (w : W) → file.content (stream.close_output w) ≡ file.content w
  pub marked-close_output : (w : W) → file.marked (stream.close_output w) ≡ file.marked w
  pub content-open_pipe : (w : W) → file.content (stream.open_pipe w).1 ≡ file.content w
  pub marked-open_pipe : (w : W) → file.marked (stream.open_pipe w).1 ≡ file.marked w
  pub content-close_pipe : (w : W) → file.content (stream.close_pipe w) ≡ file.content w
  pub marked-close_pipe : (w : W) → file.marked (stream.close_pipe w) ≡ file.marked w

module _ {W : Type 0} {stream : Stream W} (lawful : IsStream stream) where
  open lawful.file use {content, marked}

  -- What the pipe that was opened gave has been stored up to the limit, and cut off visibly.
  abbrev pub Stored : Result Feed → List ℕ → Bool → W → Type 0
  Stored p before cut w =
      (f : Feed) × (p ≡ ok f)
      × (feed_end f ≡ none)
      × (content w ≡ before ++ take (log_limit - length before) (feed_bytes f))
      × (marked w ≡ (cut || ltb (log_limit - length before) (length (feed_bytes f))))

  opened_Stored :
      (p : Result Feed) (w : W)
      → succeeded (capture_opened stream p w).0 ≡ true
      → Stored p (content w) (marked w) (capture_opened stream p w).1
  unfolding capture_opened
  opened_Stored (ok f) w h =
      let (e, c, m) = capture_log_lem lawful.file f w h in
      (f, refl, e, lawful.content-close_pipe _ ∙ c, lawful.marked-close_pipe _ ∙ m)
  opened_Stored (err x) w h = absurd (ground (arith, h))

  -- Started in a log, and ended behind its close.
  abbrev pub Logged : W → W → Type 0
  Logged w v = Stored (stream.open_pipe (stream.open_output w).1).0 (content w) (marked w) v

  -- The state before, told otherwise.
  restated :
      (p : Result Feed) {b b' : List ℕ} {c c' : Bool} (w : W)
      → b ≡ b'
      → c ≡ c'
      → Stored p b c w
      → Stored p b' c' w
  restated p {b} {b'} {c} {c'} w e d k =
      subst (λ x. Stored p x c' w) e (subst (λ y. Stored p b y w) d k)

  closed :
      (p : Result Feed) (b : List ℕ) (c : Bool) (w : W)
      → Stored p b c w
      → Stored p b c (stream.close_output w)
  closed p b c w (f, o, e, k, m) =
      (f, o, e, lawful.content-close_output w ∙ k, lawful.marked-close_output w ∙ m)

  collect_Stored :
      (w : W)
      → succeeded (collect stream w).0 ≡ true
      → Stored (stream.open_pipe w).0 (content w) (marked w) (collect stream w).1
  unfolding collect
  collect_Stored w h =
      restated (stream.open_pipe w).0 _ (lawful.content-open_pipe w) (lawful.marked-open_pipe w)
        (opened_Stored (stream.open_pipe w).0 (stream.open_pipe w).1 h)

  pub collect-Logged :
      (w : W)
      → let v = (stream.open_output w).1 in
        succeeded (collect stream v).0 ≡ true → Logged w (stream.close_output (collect stream v).1)
  collect-Logged w h =
      let v = (stream.open_output w).1 in
      closed _ _ _ _ (
        restated (stream.open_pipe v).0 _ (lawful.content-open_output w)
          (lawful.marked-open_output w) (collect_Stored v h))

both_succeeded :
    (order : Bool) (r q : Result (Unit {0}))
    → succeeded (first_error order r q) ≡ true
    → (succeeded r ≡ true) × (succeeded q ≡ true)
unfolding first_error
both_succeeded true (ok a) q h = (refl, h)
both_succeeded true (err e) q h = absurd (ground (arith, h))
both_succeeded false r (ok a) h = (h, refl)
both_succeeded false r (err e) h = absurd (ground (arith, h))

module _ {A B D : Type 0} {out : Stream A} {errors : Stream B} (lawful : IsStream out)
    (lawful' : IsStream errors) (mark_done : Exec D (Unit {0})) (is_marked : D → Bool)
    (mark_lem : (d : D) → succeeded (mark_done d).0 ≡ true → is_marked (mark_done d).1 ≡ true) where
  -- What the end of a run tells, for the state that it began in.
  abbrev Told : Logs A B D → Result (Unit {0}) × Logs A B D → Type 0
  Told s o =
      (succeeded o.0 ≡ true → is_marked o.1.directory ≡ true)
      × (is_marked o.1.directory ≡ true
          → Logged lawful s.stdout o.1.stdout × Logged lawful' s.stderr o.1.stderr)

  conclude_lem :
      (e : Result (Unit {0})) (s : Logs A B D)
      → is_marked s.directory ≡ false
      → let (r, t) = conclude out errors mark_done e s in
        (succeeded r ≡ true → is_marked t.directory ≡ true)
        × (is_marked t.directory ≡ true → succeeded e ≡ true)
        × (t.stdout ≡ s.stdout)
        × (t.stderr ≡ s.stderr)
  unfolding conclude
  conclude_lem (ok _) s new = (mark_lem s.directory, λ h. refl, refl, refl)
  conclude_lem (err e) s new =
      (λ h. absurd (ground (arith, h)), λ h. absurd (ground (arith, h, new)), refl, refl)

  -- The state in which both log files are open.
  abbrev Opened : Logs A B D → Logs A B D
  Opened s = record s {
    stdout = (out.open_output s.stdout).1;
    stderr = (errors.open_output s.stderr).1;
  }

  collected :
      (order : Bool) (s : Logs A B D)
      → is_marked s.directory ≡ false
      → Told s (collect_both out errors mark_done order (Opened s))
  unfolding collect_both close_outputs
  collected order s new =
      let a = collect out (Opened s).stdout in
      let b = collect errors (Opened s).stderr in
      let t = record s { stdout = a.1; stderr = b.1 } in
      let (done, marked, same, same') = conclude_lem (first_error order a.0 b.0) t new in
      (
        done,
        λ h.
            let (r, q) = both_succeeded order a.0 b.0 (marked h) in
            (
              subst (λ v. Logged lawful s.stdout (out.close_output v)) (sym same)
                  (collect-Logged lawful s.stdout r),
              subst (λ v. Logged lawful' s.stderr (errors.close_output v)) (sym same')
                  (collect-Logged lawful' s.stderr q),
            ),
      )

  unmarked :
      (s : Logs A B D) (e : Err) (t : Logs A B D)
      → is_marked t.directory ≡ false
      → Told s (err e, t)
  unmarked s e t new = (λ h. absurd (ground (arith, h)), λ h. absurd (ground (arith, h, new)))

  second_Told :
      (order : Bool) (b : Result (Unit {0})) (s : Logs A B D)
      → is_marked s.directory ≡ false
      → Told s (open_second out errors mark_done order b (Opened s))
  unfolding open_second
  second_Told order (ok _) s new = collected order s new
  second_Told order (err e) s new = unmarked s e _ new

  first_Told :
      (order : Bool) (a : Result (Unit {0})) (s : Logs A B D)
      → is_marked s.directory ≡ false
      → Told s (
          open_first out errors mark_done order a
            (record s { stdout = (out.open_output s.stdout).1 }))
  unfolding open_first
  first_Told order (ok _) s new = second_Told order (errors.open_output s.stderr).0 s new
  first_Told order (err e) s new = unmarked s e _ new

  -- In whichever order the two goroutines of `runLogger` report: when it succeeds it has written
  -- logs.done; and when logs.done, which was not there before, is there, then for both streams the
  -- pipe was opened and ended with io.EOF, the log file holds what it held and then as much of the
  -- output as fits below the limit, and the marker of truncation is set exactly if it was set before
  -- or some output did not fit.
  pub run_logger_lem :
      (order : Bool) (dir : Bytes) (s : Logs A B D)
      → is_marked s.directory ≡ false
      → Told s (run_logger out errors mark_done order dir s)
  unfolding run_logger
  run_logger_lem order dir s new = elim (Bool-cases (is_rooted dir)) [
    | inl absolute ↦ rw absolute (first_Told order (out.open_output s.stdout).0 s new)
    | inr not_so ↦ rw not_so (unmarked s (message "log directory must be absolute") s new)
  ]
