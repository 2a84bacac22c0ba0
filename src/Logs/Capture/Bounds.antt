-- ===== src/Logs/Capture/Bounds.antt =====
-- What holds of `captureLog` whatever the host's operations return: the file stays bounded, and the
-- pipe is read to its end.
use sandcube.Prelude.{
  ℕ, ◌+◌, ◌-◌, ◌≤◌, ◌≡◌, refl, Bool, true, false, inl, inr, Option, none, some, List, arith, length,
  take, length-append, length-take, ltb, max,
}
use sandcube.Exec.{Err, ok, succeeded, Result-cases}
use sandcube.Logs.Capture.{
  Feed, chunk, final, ended, Sink, log_limit, drain, note_overflow, keep_bytes, store_chunk, finish,
  copy_chunks, copy_log, drain_on_error, capture_log,
}
use sandcube.Logs.Capture.Laws.{IsFile, feed_end}

module _ {W : Type 0} {out : Sink W} (file : IsFile out) where
  open file use {content, marked}

  content-note_overflow :
      (over seen : Bool) (w : W) → content (note_overflow out over seen w).1 ≡ content w
  unfolding note_overflow
  content-note_overflow over seen w = ground (arith, file.content-mark w)

  length-keep_bytes :
      (b : List ℕ) (w : W) → length (content (keep_bytes out b w).1) ≤ length (content w) + length b
  unfolding keep_bytes
  length-keep_bytes b w =
      let w' = (out.append b w).1 in
      let k = file.stored w b in
      ground (
        arith,
        file.content-append w b,
        file.content-sync w',
        length-append (content w) (take k b),
        length-take k b,
      )

  length-store_chunk :
      (left : ℕ) (seen : Bool) (b : List ℕ) (w : W)
      → length (content (store_chunk out left seen b w).1) ≤ length (content w) + left
  unfolding store_chunk
  length-store_chunk left seen b w =
      let w' = (note_overflow out (ltb left (length b)) seen w).1 in
      ground (
        arith,
        content-note_overflow (ltb left (length b)) seen w,
        length-keep_bytes (take left b) w',
        length-take left b,
      )

  length-store_chunk_ok :
      (left : ℕ) (seen : Bool) (b : List ℕ) (w : W) {l : ℕ} {t : Bool}
      → (store_chunk out left seen b w).0 ≡ ok (l, t)
      → length (content (store_chunk out left seen b w).1) + l ≤ length (content w) + left
  unfolding store_chunk
  length-store_chunk_ok left seen b w h =
      let w' = (note_overflow out (ltb left (length b)) seen w).1 in
      ground (
        arith,
        content-note_overflow (ltb left (length b)) seen w,
        length-keep_bytes (take left b) w',
        length-take left b,
      )

  content-finish : (e : Option Err) (w : W) → content (finish out e w).world ≡ content w
  unfolding finish
  content-finish none w = file.content-sync w
  content-finish (some e) w = refl

  length-copy_chunks :
      (left : ℕ) (seen : Bool) (f : Feed) (w : W)
      → length (content (copy_chunks out left seen f w).world) ≤ length (content w) + left
  unfolding copy_chunks
  length-copy_chunks left seen (chunk b f) w =
      let w' = (store_chunk out left seen b w).1 in
      elim (Result-cases (store_chunk out left seen b w).0) [
        | inl ((l, t), stored) ↦
            ground (
              arith,
              stored,
              length-store_chunk_ok left seen b w stored,
              length-copy_chunks l t f w',
            )
        | inr (e, failed) ↦ ground (arith, failed, length-store_chunk left seen b w)
      ]
  length-copy_chunks left seen (final b e) w =
      let w' = (store_chunk out left seen b w).1 in
      ground (arith, length-store_chunk left seen b w, content-finish e w')
  length-copy_chunks left seen (ended e) w = ground (arith, content-finish e w)

  -- Whatever fails, and however long the output is, the capture lets the file grow to the limit of
  -- 1 MiB at most, or leaves it as long as it was.
  length-capture_log :
      (f : Feed) (w : W)
      → length (content (capture_log out f w).world) ≤ max log_limit (length (content w))
  unfolding capture_log drain_on_error copy_log
  length-capture_log f w = ground (
    arith,
    file.size_lem w,
    file.content-size w,
    length-copy_chunks (log_limit - length (content w)) false f (out.size w).1,
  )

drain-eq-ended : (f : Feed) → drain f ≡ ended (feed_end f)
unfolding drain
drain-eq-ended (chunk b f) = drain-eq-ended f
drain-eq-ended (final b e) = refl
drain-eq-ended (ended e) = refl

module _ {W : Type 0} (out : Sink W) where
  -- What the loop leaves unread ends as the pipe does, and it returns without error only at the end.
  copy_chunks-input :
      (left : ℕ) (seen : Bool) (f : Feed) (w : W)
      → let o = copy_chunks out left seen f w in
        (feed_end o.input ≡ feed_end f) × (succeeded o.result ≡ true → o.input ≡ ended (feed_end f))
  unfolding copy_chunks finish
  copy_chunks-input left seen (chunk b f) w =
      let w' = (store_chunk out left seen b w).1 in
      elim (Result-cases (store_chunk out left seen b w).0) [
        | inl ((l, t), stored) ↦ ground (arith, stored, copy_chunks-input l t f w')
        | inr (e, failed) ↦ ground (arith, failed)
      ]
  copy_chunks-input left seen (final b none) w = ground arith
  copy_chunks-input left seen (final b (some e)) w = ground arith
  copy_chunks-input left seen (ended none) w = ground arith
  copy_chunks-input left seen (ended (some e)) w = ground arith

  -- The pipe is always read to its end, after an error too.
  pub capture_log-input : (f : Feed) (w : W) → (capture_log out f w).input ≡ ended (feed_end f)
  unfolding capture_log drain_on_error copy_log
  capture_log-input f w =
      let at_end = drain-eq-ended (copy_log out f w).input in
      elim (Result-cases (out.size w).0) [
        | inl (n, opened) ↦
            ground (arith, opened, at_end, copy_chunks-input (log_limit - n) false f (out.size w).1)
        | inr (e, failed) ↦ ground (arith, failed, at_end)
      ]
