-- ===== src/Server/Locks.antt =====
-- `lock` of services/containerd-runtime/main.go, taken and given back by requests that run at the same time.
pub mod Laws
use sandcube.Prelude.{ℕ, ◌+◌, ◌*◌, ◌%◌, Bool, true, false, ◌≡◌, List, [], ◌∷◌, ◌==◌, if◌then◌else◌}
use sandcube.Paths.{Bytes}

-- The loop of `h = h*31 + id[i]` on a byte.
abbrev hash_from : ℕ → Bytes → ℕ
hash_from h [] = h
hash_from h (c ∷ s) = hash_from ((h * 31 + c) % 256) s

-- Which of the 256 mutexes an ID has.
unfoldable pub shard_of : Bytes → ℕ
shard_of id = hash_from 0 id

-- Where a request stands: before or behind its work, with the lifecycle mutex alone, at work on a
-- sandbox with both, or reconciling, which takes the lifecycle mutex and no other.
pub data Phase : Type 0 where
  outside : Phase
  entering : Bytes → Phase
  working : Bytes → Phase
  leaving : Phase
  reconciling : Phase

pub record Mutexes : Type 0 where
  pub lifecycle : Bool
  pub shards : ℕ → Bool
  pub phase : ℕ → Phase

abbrev pub set {ℓ} : {A : Type ℓ} → ℕ → A → (ℕ → A) → ℕ → A
set i a f j = if j == i then a else f j

-- What one request may do next. A mutex is taken only where it is free.
pub data Step : Mutexes → Mutexes → Type 0 where
  lock_lifecycle :
      (m : Mutexes) (t : ℕ) (id : Bytes)
      → m.phase t ≡ outside
      → m.lifecycle ≡ false
      → Step m (record m { lifecycle = true; phase = set t (entering id) m.phase })
  lock_shard :
      (m : Mutexes) (t : ℕ) (id : Bytes)
      → m.phase t ≡ entering id
      → m.shards (shard_of id) ≡ false
      → Step m
          record m { shards = set (shard_of id) true m.shards; phase = set t (working id) m.phase }
  unlock_shard :
      (m : Mutexes) (t : ℕ) (id : Bytes)
      → m.phase t ≡ working id
      → Step m record m { shards = set (shard_of id) false m.shards; phase = set t leaving m.phase }
  unlock_lifecycle :
      (m : Mutexes) (t : ℕ)
      → m.phase t ≡ leaving
      → Step m (record m { lifecycle = false; phase = set t outside m.phase })
  begin_reconcile :
      (m : Mutexes) (t : ℕ)
      → m.phase t ≡ outside
      → m.lifecycle ≡ false
      → Step m (record m { lifecycle = true; phase = set t reconciling m.phase })
  end_reconcile :
      (m : Mutexes) (t : ℕ)
      → m.phase t ≡ reconciling
      → Step m (record m { lifecycle = false; phase = set t outside m.phase })

abbrev pub all_free : Mutexes
all_free = record { lifecycle = false; shards = λ _. false; phase = λ _. outside }

pub data Reachable : Mutexes → Type 0 where
  at_start : Reachable all_free
  after : (m n : Mutexes) → Reachable m → Step m n → Reachable n

abbrev pub is_outside : Phase → Bool
is_outside outside = true
is_outside _ = false

-- The shard that a request holds.
abbrev pub holds : Phase → ℕ → Bool
holds (working id) h = h == shard_of id
holds _ h = false
