-- ===== src/Logs/Buffer.antt =====
-- `limitedBuffer` of services/containerd-runtime/runtime.go: captured output in memory, capped while
-- the pipe is still drained. Its mutex makes each call one step, so a call is a function of the state.
pub mod Laws
use sandcube.Prelude.{
  ℕ, ◌-◌, ◌*◌, Bool, true, false, List, [], ◌∷◌, ◌++◌, length, take, ltb, if◌then◌else◌,
}

pub record Buffer : Type 0 where
  pub bytes : List ℕ
  pub truncated : Bool

abbrev pub empty : Buffer
empty = record { bytes = []; truncated = false }

abbrev pub capacity : ℕ
capacity = 1024 * 1024

-- The body of `Write` for a buffer of `cap` bytes.
pub write_within : ℕ → Buffer → List ℕ → Buffer × ℕ
write_within cap b p =
    let n = length p in
    let left = cap - length b.bytes in
    if ltb left n
    then (record { bytes = b.bytes ++ take left p; truncated = true }, n)
    else (record b { bytes = b.bytes ++ p }, n)

unfoldable pub write : Buffer → List ℕ → Buffer × ℕ
unfolding write_within
write = write_within capacity

unfoldable pub result : Buffer → List ℕ × Bool
result b = (b.bytes, b.truncated)
