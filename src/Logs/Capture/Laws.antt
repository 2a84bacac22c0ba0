-- ===== src/Logs/Capture/Laws.antt =====
-- What `captureLog` leaves in the log file, for every cutting of the output into reads.
use sandcube.Prelude.{
  ℕ, ◌-◌, ◌≤◌, ◌≡◌, refl, sym, Bool, true, false, ◌||◌, Option, none, some, List, [], ◌∷◌, ◌++◌,
  append_assoc, append-nil, arith, length, take, length-append, length-take, take-append, take_all,
  take-nil, ltb,
}
use sandcube.Exec.{Err, ok, succeeded}
use sandcube.Logs.Capture.{
  Feed, chunk, final, ended, Sink, log_limit, note_overflow, keep_bytes, store_chunk, finish,
  copy_chunks, copy_log, drain_on_error, capture_log,
}

-- All the bytes that a reader will return, and how it will end.
abbrev pub feed_bytes : Feed → List ℕ
feed_bytes (chunk b f) = b ++ feed_bytes f
feed_bytes (final b e) = b
feed_bytes (ended e) = []

abbrev pub feed_end : Feed → Option Err
feed_end (chunk b f) = feed_end f
feed_end (final b e) = e
feed_end (ended e) = e

-- The documented behaviour of the file operations. A write that fails may have stored a part.
pub record IsFile {W : Type 0} (out : Sink W) : Type 0 where
  pub content : W → List ℕ
  pub marked : W → Bool
  pub stored : W → List ℕ → ℕ
  pub size_lem :
      (w : W) → succeeded (out.size w).0 ≡ true → (out.size w).0 ≡ ok (length (content w))
  pub content-size : (w : W) → content (out.size w).1 ≡ content w
  pub marked-size : (w : W) → marked (out.size w).1 ≡ marked w
  pub content-append :
      (w : W) (b : List ℕ) → content (out.append b w).1 ≡ content w ++ take (stored w b) b
  pub stored_all :
      (w : W) (b : List ℕ) → succeeded (out.append b w).0 ≡ true → length b ≤ stored w b
  pub marked-append : (w : W) (b : List ℕ) → marked (out.append b w).1 ≡ marked w
  pub content-sync : (w : W) → content (out.sync w).1 ≡ content w
  pub marked-sync : (w : W) → marked (out.sync w).1 ≡ marked w
  pub content-mark : (w : W) → content (out.mark w).1 ≡ content w
  pub marked-mark : (w : W) → succeeded (out.mark w).0 ≡ true → marked (out.mark w).1 ≡ true

module _ {W : Type 0} {out : Sink W} (file : IsFile out) where
  open file use {content, marked}

  note_overflow_lem :
      (over seen : Bool) (w : W)
      → (seen ≡ true → marked w ≡ true)
      → succeeded (note_overflow out over seen w).0 ≡ true
      → ((note_overflow out over seen w).0 ≡ ok (seen || over))
        × (content (note_overflow out over seen w).1 ≡ content w)
        × (marked (note_overflow out over seen w).1 ≡ (marked w || over))
  unfolding note_overflow
  note_overflow_lem over seen w inv h = ground (arith, file.content-mark w, file.marked-mark w)

  keep_bytes_lem :
      (b : List ℕ) (w : W)
      → succeeded (keep_bytes out b w).0 ≡ true
      → (content (keep_bytes out b w).1 ≡ content w ++ b)
        × (marked (keep_bytes out b w).1 ≡ marked w)
  unfolding keep_bytes
  keep_bytes_lem [] w h = (sym (append-nil (content w)), refl)
  keep_bytes_lem (x ∷ b) w h =
      let w' = (out.append (x ∷ b) w).1 in
      ground (
        arith,
        file.content-append w (x ∷ b),
        file.stored_all w (x ∷ b),
        file.marked-append w (x ∷ b),
        file.content-sync w',
        file.marked-sync w',
        take_all (file.stored w (x ∷ b)) (x ∷ b),
      )

  store_chunk_lem :
      (left : ℕ) (seen : Bool) (b : List ℕ) (w : W)
      → (seen ≡ true → marked w ≡ true)
      → succeeded (store_chunk out left seen b w).0 ≡ true
      → ((store_chunk out left seen b w).0 ≡ ok (left - length b, seen || ltb left (length b)))
        × (content (store_chunk out left seen b w).1 ≡ content w ++ take left b)
        × (marked (store_chunk out left seen b w).1 ≡ (marked w || ltb left (length b)))
  unfolding store_chunk
  store_chunk_lem left seen b w inv h =
      let over = ltb left (length b) in
      ground (
        arith,
        note_overflow_lem over seen w inv,
        keep_bytes_lem (take left b) (note_overflow out over seen w).1,
        length-take left b,
      )

  finish_lem :
      (e : Option Err) (w : W)
      → succeeded (finish out e w).result ≡ true
      → (e ≡ none)
        × (content (finish out e w).world ≡ content w)
        × (marked (finish out e w).world ≡ marked w)
  unfolding finish
  finish_lem none w h = (refl, file.content-sync w, file.marked-sync w)
  finish_lem (some e) w h = cc

  copy_chunks_lem :
      (left : ℕ) (seen : Bool) (f : Feed) (w : W)
      → (seen ≡ true → marked w ≡ true)
      → let o = copy_chunks out left seen f w in
        succeeded o.result ≡ true
        → (feed_end f ≡ none)
          × (content o.world ≡ content w ++ take left (feed_bytes f))
          × (marked o.world ≡ (marked w || ltb left (length (feed_bytes f))))
  unfolding copy_chunks
  copy_chunks_lem left seen (chunk b f) w inv h =
      let w' = (store_chunk out left seen b w).1 in
      let rest = feed_bytes f in
      ground (
        arith,
        store_chunk_lem left seen b w inv,
        copy_chunks_lem (left - length b) (seen || ltb left (length b)) f w',
        take-append left b rest,
        length-append b rest,
        append_assoc (content w) (take left b) (take (left - length b) rest),
      )
  copy_chunks_lem left seen (final b e) w inv h =
      ground
        (arith, store_chunk_lem left seen b w inv, finish_lem e (store_chunk out left seen b w).1)
  copy_chunks_lem left seen (ended e) w inv h =
      ground (arith, finish_lem e w, append-nil (content w), take-nil {A = ℕ} left)

  copy_log_lem :
      (f : Feed) (w : W)
      → succeeded (copy_log out f w).result ≡ true
      → let room = log_limit - length (content w) in
        (feed_end f ≡ none)
        × (content (copy_log out f w).world ≡ content w ++ take room (feed_bytes f))
        × (marked (copy_log out f w).world ≡ (marked w || ltb room (length (feed_bytes f))))
  unfolding copy_log
  copy_log_lem f w h =
      let left = log_limit - length (content w) in
      ground (
        arith,
        file.size_lem w,
        file.content-size w,
        file.marked-size w,
        copy_chunks_lem left false f (out.size w).1,
      )

  -- When the capture reports success, the pipe ended with io.EOF, the file holds what it held and
  -- then as much of the output as fits below the limit, and the marker is set exactly if it was set
  -- before or some output did not fit.
  pub capture_log_lem :
      (f : Feed) (w : W)
      → succeeded (capture_log out f w).result ≡ true
      → let room = log_limit - length (content w) in
        (feed_end f ≡ none)
        × (content (capture_log out f w).world ≡ content w ++ take room (feed_bytes f))
        × (marked (capture_log out f w).world ≡ (marked w || ltb room (length (feed_bytes f))))
  unfolding capture_log drain_on_error
  capture_log_lem f w h = ground (arith, copy_log_lem f w)
