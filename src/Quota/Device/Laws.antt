-- ===== src/Quota/Device/Laws.antt =====
-- Which mount a path lies on.
use sandcube.Prelude.{
  ◌≤◌, ◌≡◌, refl, ◌⊎◌, inl, inr, true, false, Option, none, some, List, [], ◌∷◌, arith, length, All,
  Bool-cases,
}
use sandcube.Exec.{ok, OnOk, Result-cases, refuse_if, ◌>>=◌, lift}
use sandcube.Paths.{Bytes}
use sandcube.Calls.{Sys, call}
use sandcube.Quota.Kernel.{Kernel, MountInfo}
use sandcube.Quota.Device.{covers, beats, best_mount, has_project_quota, source_of, quota_device}

abbrev pub Has : MountInfo → List MountInfo → Type 0
Has m [] = ⊥
Has m (n ∷ ns) = (m ≡ n) ⊎ Has m ns

-- No mount of the table that the path lies on has a longer name.
abbrev pub IsLongest : Bytes → MountInfo → List MountInfo → Type 0
IsLongest path m = All (λ n. covers path n ≡ true → length n.mountpoint ≤ length m.mountpoint)

-- Where the search ends, from the mount found so far.
abbrev Found : Bytes → Option MountInfo → List MountInfo → Option MountInfo → Type 0
Found path none ms none = All (λ n. covers path n ≡ false) ms
Found path (some b) ms none = ⊥
Found path none ms (some m) = Has m ms × (covers path m ≡ true) × IsLongest path m ms
Found path (some b) ms (some m) =
    ((m ≡ b) ⊎ (Has m ms × (covers path m ≡ true)))
    × (length b.mountpoint ≤ length m.mountpoint)
    × IsLongest path m ms

module _ (path : Bytes) (m : MountInfo) (ms : List MountInfo) where
  -- A mount that the path does not lie on.
  Found-skip :
      (o r : Option MountInfo) → covers path m ≡ false → Found path o ms r → Found path o (m ∷ ms) r
  Found-skip none none c f = (c, f)
  Found-skip (some b) none c f = f
  Found-skip none (some n) c (h, k, l) = (inr h, k, (λ e. cc, l))
  Found-skip (some b) (some n) c (inl e, k, l) = (inl e, k, (λ e'. cc, l))
  Found-skip (some b) (some n) c (inr (h, h'), k, l) = (inr (inr h, h'), k, (λ e'. cc, l))

  -- A mount that does not beat the one found so far.
  Found-keep :
      (b : MountInfo) (r : Option MountInfo)
      → length m.mountpoint ≤ length b.mountpoint
      → Found path (some b) ms r
      → Found path (some b) (m ∷ ms) r
  Found-keep b none c f = f
  Found-keep b (some n) c (inl e, k, l) = (inl e, k, (λ _. omega arith, l))
  Found-keep b (some n) c (inr (h, h'), k, l) = (inr (inr h, h'), k, (λ _. omega arith, l))

  Found-first :
      (r : Option MountInfo)
      → covers path m ≡ true
      → Found path (some m) ms r
      → Found path none (m ∷ ms) r
  Found-first none c f = absurd f
  Found-first (some n) c (inl e, k, l) = (inl e, rw e c, (λ _. k, l))
  Found-first (some n) c (inr (h, h'), k, l) = (inr h, h', (λ _. k, l))

  Found-take :
      (b : MountInfo) (r : Option MountInfo)
      → covers path m ≡ true
      → length b.mountpoint ≤ length m.mountpoint
      → Found path (some m) ms r
      → Found path (some b) (m ∷ ms) r
  Found-take b none c lt f = absurd f
  Found-take b (some n) c lt (inl e, k, l) = (inr (inl e, rw e c), omega arith, (λ _. k, l))
  Found-take b (some n) c lt (inr (h, h'), k, l) = (inr (inr h, h'), omega arith, (λ _. k, l))

best_mount-Found :
    (path : Bytes) (best : Option MountInfo) (ms : List MountInfo)
    → Found path best ms (best_mount path best ms)
unfolding best_mount
best_mount-Found path none [] = tt
best_mount-Found path (some b) [] = (inl refl, omega arith, tt)
best_mount-Found path none (m ∷ ms) = elim (Bool-cases (covers path m)) [
  | inl c ↦ rw c (Found-first path m ms _ c (best_mount-Found path (some m) ms))
  | inr c ↦ rw c (Found-skip path m ms none _ c (best_mount-Found path none ms))
]
best_mount-Found path (some b) (m ∷ ms) = elim (Bool-cases (covers path m)) [
  | inr c ↦ rw c (Found-skip path m ms (some b) _ c (best_mount-Found path (some b) ms))
  | inl c ↦ elim (Bool-cases (beats m (some b))) [
    | inl l ↦
        rw (c, l) (Found-take path m ms b _ c (ground arith) (best_mount-Found path (some m) ms))
    | inr l ↦
        rw (c, l) (Found-keep path m ms b _ (ground arith) (best_mount-Found path (some b) ms))
  ]
]

-- What the choice means for the device.
abbrev pub IsDevice : Bytes → List MountInfo → Bytes → Type 0
IsDevice path ms source =
    (m : MountInfo) × Has m ms
    × (covers path m ≡ true)
    × IsLongest path m ms
    × (has_project_quota m ≡ true)
    × (m.source ≡ source)

source_of-IsDevice :
    (path : Bytes) (ms : List MountInfo) (o : Option MountInfo)
    → Found path none ms o
    → OnOk (IsDevice path ms) (source_of o)
source_of-IsDevice path ms none f = tt
source_of-IsDevice path ms (some m) (h, c, l) = elim (Bool-cases (has_project_quota m)) [
  | inl q ↦ rw q (m, h, c, l, q, refl)
  | inr q ↦ rw q tt
]

module _ {W : Type 0} (kernel : Kernel W) where
  -- The device that the quota is set on is the source of a mount of the table that the path lies on and
  -- that enforces project quotas, and no mount that the path lies on has a longer name.
  pub quota_device-IsDevice :
      (path : Bytes) (ms : List MountInfo) (s : Sys W)
      → (kernel.mounts (kernel.is_xfs path s.world).1).0 ≡ ok ms
      → OnOk (IsDevice path ms) (quota_device kernel path s).0
  unfolding quota_device call ◌>>=◌ refuse_if lift
  quota_device-IsDevice path ms s listed =
      let found = source_of-IsDevice path ms _ (best_mount-Found path none ms) in
      elim (Result-cases (kernel.is_xfs path s.world).0) [
        | inr (e, failed) ↦ rw failed tt
        | inl (xfs, read) ↦ elim (Bool-cases xfs) [
          | inl yes' ↦ rw (read, yes', listed) found
          | inr no' ↦ rw (read, no') tt
        ]
      ]
