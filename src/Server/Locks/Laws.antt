-- ===== src/Server/Locks/Laws.antt =====
-- Mutual exclusion, and that a request never waits for a shard.
use sandcube.Prelude.{
  ℕ, ◌≡◌, ◌≢◌, refl, sym, ◌∙◌, Bool-cases, inl, inr, Bool, true, false, arith, ◌==◌,
}
use mathlib.Core.Path.{subst}
use sandcube.Paths.{Bytes}
use sandcube.Server.Locks.{
  shard_of, Phase, outside, entering, working, leaving, reconciling, Mutexes, set, Step,
  lock_lifecycle, lock_shard, unlock_shard, unlock_lifecycle, begin_reconcile, end_reconcile,
  Reachable, at_start, after, is_outside, holds,
}

-- All requests but this one are outside; the lifecycle mutex is taken where this one is inside, and
-- the shards that are taken are those that it holds.
record Owned (owner : ℕ) (m : Mutexes) : Type 0 where
  alone : (t : ℕ) → t ≢ owner → is_outside (m.phase t) ≡ true
  taken : m.lifecycle ≡ false → is_outside (m.phase owner) ≡ true
  shards_held : (h : ℕ) → m.shards h ≡ holds (m.phase owner) h

outside-holds : (p : Phase) (h : ℕ) → is_outside p ≡ true → holds p h ≡ false
outside-holds outside h e = refl
outside-holds (entering id) h e = ground arith
outside-holds (working id) h e = ground arith
outside-holds leaving h e = refl
outside-holds reconciling h e = refl

module _ (o : ℕ) (m : Mutexes) (owned : Owned o m) where
  -- A request inside is the owner.
  inside_owner : (t : ℕ) → is_outside (m.phase t) ≡ false → t ≡ o
  inside_owner t h = elim (Bool-cases (t == o)) [
    | inl e ↦ ground arith
    | inr e ↦ ground (arith, owned.alone t)
  ]

  all_outside : m.lifecycle ≡ false → (t : ℕ) → is_outside (m.phase t) ≡ true
  all_outside l t = elim (Bool-cases (t == o)) [
    | inl e ↦ ground (arith, owned.taken l)
    | inr e ↦ ground (arith, owned.alone t)
  ]

  -- The owner is the request that is inside.
  Owned-by : (t : ℕ) → is_outside (m.phase t) ≡ false → Owned t m
  Owned-by t h = subst (λ u. Owned u m) (sym (inside_owner t h)) owned

  -- While the mutex is free, any request may be the next owner.
  next_owner : (t : ℕ) → m.lifecycle ≡ false → Owned t m
  next_owner t l = record {
    alone = λ u n. all_outside l u;
    taken = λ e. all_outside l t;
    shards_held = λ h.
        owned.shards_held h
        ∙ (outside-holds _ h (all_outside l o) ∙ sym (outside-holds _ h (all_outside l t)));
  }

module _ (t : ℕ) (m : Mutexes) (owned : Owned t m) where
  -- The owner moves to another phase.
  move :
      (free : Bool) (shards : ℕ → Bool) (p : Phase)
      → (free ≡ false → is_outside p ≡ true)
      → ((h : ℕ) → shards h ≡ holds p h)
      → Owned t record { lifecycle = free; shards = shards; phase = set t p m.phase }
  move free shards p l k = record {
    alone = λ u n. ground (arith, owned.alone u);
    taken = λ e. ground (arith, l);
    shards_held = λ h. ground (arith, k h);
  }

abbrev HasOwner : Mutexes → Type 0
HasOwner m = (t : ℕ) × Owned t m

Step-HasOwner : (m n : Mutexes) → Step m n → HasOwner m → HasOwner n
Step-HasOwner m _ (lock_lifecycle _ t id p l) (o, owned) =
    let now = next_owner o m owned t l in
    (
      t,
      move t m now true m.shards (entering id) (λ e. ground arith)
          λ h. ground (arith, now.shards_held h),
    )
Step-HasOwner m _ (lock_shard _ t id p l) (o, owned) =
    let now = Owned-by o m owned t (ground arith) in
    (
      t,
      move t m now m.lifecycle _ (working id) (λ e. ground (arith, now.taken e))
          λ h. ground (arith, now.shards_held h),
    )
Step-HasOwner m _ (unlock_shard _ t id p) (o, owned) =
    let now = Owned-by o m owned t (ground arith) in
    (
      t,
      move t m now m.lifecycle _ leaving (λ e. ground (arith, now.taken e))
          λ h. ground (arith, now.shards_held h),
    )
Step-HasOwner m _ (unlock_lifecycle _ t p) (o, owned) =
    let now = Owned-by o m owned t (ground arith) in
    (t, move t m now false m.shards outside (λ e. refl) λ h. ground (arith, now.shards_held h))
Step-HasOwner m _ (begin_reconcile _ t p l) (o, owned) =
    let now = next_owner o m owned t l in
    (
      t,
      move t m now true m.shards reconciling (λ e. ground arith)
          λ h. ground (arith, now.shards_held h),
    )
Step-HasOwner m _ (end_reconcile _ t p) (o, owned) =
    let now = Owned-by o m owned t (ground arith) in
    (t, move t m now false m.shards outside (λ e. refl) λ h. ground (arith, now.shards_held h))

Reachable-HasOwner : (m : Mutexes) → Reachable m → HasOwner m
Reachable-HasOwner _ at_start =
    (0, record { alone = λ t n. refl; taken = λ e. refl; shards_held = λ h. refl })
Reachable-HasOwner _ (after m n r st) = Step-HasOwner m n st (Reachable-HasOwner m r)

-- However requests interleave, two that are inside `lock` and its release are the same request: one
-- sandbox operation or reconciliation is under way at a time.
pub lock_excludes :
    (m : Mutexes)
    → Reachable m
    → (t u : ℕ) → is_outside (m.phase t) ≡ false
    → is_outside (m.phase u) ≡ false
    → t ≡ u
lock_excludes m r t u h k =
    let (o, owned) = Reachable-HasOwner m r in
    inside_owner o m owned t h ∙ sym (inside_owner o m owned u k)

-- However requests interleave, a request that has the lifecycle mutex finds the mutex of its sandbox
-- free, so it does not wait a second time, and no two requests can block each other.
pub lock_never_waits_twice :
    (m : Mutexes)
    → Reachable m
    → (t : ℕ) (id : Bytes) → m.phase t ≡ entering id
    → m.shards (shard_of id) ≡ false
lock_never_waits_twice m r t id p =
    let (o, owned) = Reachable-HasOwner m r in
    let now = Owned-by o m owned t (ground arith) in ground (arith, now.shards_held (shard_of id))
