-- ===== src/Logs/Capture.antt =====
-- `captureLog` of services/containerd-runtime/logger.go. The pipe is what its `Read` will return;
-- the output file and the marker file are operations of the host.
pub mod Laws
pub mod Bounds
use sandcube.Prelude.{
  ℕ, ◌-◌, ◌*◌, Bool, true, false, not, ◌&&◌, Option, none, some, List, [], ◌∷◌, ◌++◌, length, take,
  ltb, if◌then◌else◌,
}
use sandcube.Exec.{Err, Result, ok, err, Exec, pure, skip, ◌>>=◌, ◌>>◌}

-- A reader by the answers of its later `Read` calls. `chunk b f`: the bytes `b` and no error.
-- `final b e`: the bytes `b` together with the end. `ended e`: no bytes and the end, as often as it
-- is read. The end is `none` for io.EOF.
pub data Feed : Type 0 where
  chunk : List ℕ → Feed → Feed
  final : List ℕ → Option Err → Feed
  ended : Option Err → Feed

-- `out.Stat`, `out.Write`, `out.Sync`, and `os.WriteFile` of the marker.
pub record Sink (W : Type 0) : Type 0 where
  pub size : Exec W ℕ
  pub append : List ℕ → Exec W (Unit {0})
  pub sync : Exec W (Unit {0})
  pub mark : Exec W (Unit {0})

abbrev pub log_limit : ℕ
log_limit = 1024 * 1024

-- What the call leaves: its error or none, the reader, and the host.
pub record Outcome (W : Type 0) : Type 0 where
  pub result : Result (Unit {0})
  pub input : Feed
  pub world : W

-- `io.Copy(io.Discard, in)`
unfoldable pub drain : Feed → Feed
drain (chunk b f) = drain f
drain (final b e) = ended e
drain (ended e) = ended e

module _ {W : Type 0} (out : Sink W) where
  -- The branch `keep > left`, which sets the marker once.
  unfoldable pub note_overflow : Bool → Bool → Exec W Bool
  unfolding ◌>>=◌
  note_overflow over truncated =
      if over && not truncated then (do out.mark; pure true) else pure truncated

  -- The branch `keep > 0`.
  unfoldable pub keep_bytes : List ℕ → Exec W (Unit {0})
  unfolding ◌>>=◌
  keep_bytes kept = if ltb 0 (length kept) then (do out.append kept; out.sync) else skip

  -- What the loop does with `n > 0` bytes: the room left, and whether the marker is set.
  unfoldable pub store_chunk : ℕ → Bool → List ℕ → Exec W (ℕ × Bool)
  unfolding ◌>>=◌
  store_chunk left truncated b = do
    truncated' ← note_overflow (ltb left (length b)) truncated
    keep_bytes (take left b)
    pure (left - length (take left b), truncated')

  -- The end of the stream: `out.Sync` after io.EOF, the reader's error otherwise.
  unfoldable pub finish : Option Err → W → Outcome W
  finish none w = let (r, w') = out.sync w in record { result = r; input = ended none; world = w' }
  finish (some e) w = record { result = err e; input = ended (some e); world = w }

  -- The loop, and what it leaves of the reader when it returns.
  unfoldable pub copy_chunks : ℕ → Bool → Feed → W → Outcome W
  copy_chunks left truncated (chunk b f) w =
      let (r, w') = store_chunk left truncated b w in
      elim r [
        | ok (left', truncated') ↦ copy_chunks left' truncated' f w'
        | err e ↦ record { result = err e; input = f; world = w' }
      ]
  copy_chunks left truncated (final b e) w =
      let (r, w') = store_chunk left truncated b w in
      elim r [ ok _ ↦ finish e w' | err x ↦ record { result = err x; input = ended e; world = w' } ]
  copy_chunks left truncated (ended e) w = finish e w

  -- The body: `Stat`, then the loop with the room that is left below the limit.
  unfoldable pub copy_log : Feed → W → Outcome W
  copy_log f w =
      let (r, w') = out.size w in
      elim r [
        | ok size ↦ copy_chunks (log_limit - size) false f w'
        | err e ↦ record { result = err e; input = f; world = w' }
      ]

-- The deferred call: on an error the rest of the pipe is read and thrown away.
unfoldable pub drain_on_error : {W : Type 0} → Outcome W → Outcome W
drain_on_error o = elim o.result [ ok _ ↦ o | err _ ↦ record o { input = drain o.input } ]

module _ {W : Type 0} (out : Sink W) where
  unfoldable pub capture_log : Feed → W → Outcome W
  capture_log f w = drain_on_error (copy_log out f w)
