-- ===== src/Quota/Enforce/Laws.antt =====
-- A quota that passes is in force.
use sandcube.Prelude.{
  ℕ, ◌*◌, ◌≡◌, refl, ◌∙◌, Bool, true, false, not, ◌||◌, List, [], ◌∷◌, arith, All, inl, inr,
  Bool-cases,
}
use sandcube.Prelude.Int.{ℤ, to_ℕ, below, above}
use sandcube.Exec.Rules.{
  Achieves, Achieves-bind, Achieves-refuse_if, Achieves-lift, Preserves, Preserves-for_each,
  preserves_rules,
}
use sandcube.Calls.Laws.{Preserves-call}
use sandcube.Exec.{
  ok, succeeded, Result-cases, ◌>>=◌, ◌>>◌, deferring, refuse_if, message, Exec, for_each, attempt,
  handle, pure, raise,
}
use sandcube.Paths.{Bytes}
use sandcube.Calls.{Call, Sys, call}
use sandcube.Runtime.Engine.{Mount}
use sandcube.Quota.Kernel.{Kernel, DiskQuota, Attributes}
use sandcube.Quota.Path.{snapshot_quota_path}
use sandcube.Quota.Enforce.{
  inherits, limits_of, same_limits, charged, check_opened, check_directory, check_limits,
  enforce_on, enforce_quota, explaining,
}

-- The quotas of the devices and the attributes of the directories.
pub record View : Type 0 where
  pub limits : Bytes → ℕ → DiskQuota
  pub attributes : Bytes → Attributes

-- Reading tells the state and leaves it. That setting has an effect is not assumed.
pub record IsReadable {W : Type 0} (kernel : Kernel W) : Type 0 where
  pub view : W → View
  pub opened : W → ℕ → Bytes
  pub get_quota_lem :
      (w : W) (device : Bytes) (project : ℕ) (q : DiskQuota)
      → (kernel.get_quota device project w).0 ≡ ok q
      → q ≡ (view w).limits device project
  pub open_directory_lem :
      (w : W) (path : Bytes) (fd : ℕ)
      → (kernel.open_directory path w).0 ≡ ok fd
      → opened (kernel.open_directory path w).1 fd ≡ path
  pub get_attributes_lem :
      (w : W) (fd : ℕ) (a : Attributes)
      → (kernel.get_attributes fd w).0 ≡ ok a
      → a ≡ (view w).attributes (opened w fd)
  pub view-get_quota :
      (w : W) (device : Bytes) (project : ℕ) → view (kernel.get_quota device project w).1 ≡ view w
  pub view-open : (w : W) (path : Bytes) → view (kernel.open_directory path w).1 ≡ view w
  pub view-get_attributes : (w : W) (fd : ℕ) → view (kernel.get_attributes fd w).1 ≡ view w
  pub view-close : (w : W) (fd : ℕ) → view (kernel.close fd w).1 ≡ view w

-- A directory that is charged to a project, and hands that on to what is made in it.
abbrev pub IsCharged : View → ℕ → Bytes → Type 0
IsCharged v project path =
    ((v.attributes path).project ≡ project) × (inherits (v.attributes path).flags ≡ true)

-- The hard limits are those of a sandbox of this size.
abbrev pub IsLimited : View → Bytes → ℕ → ℕ → Type 0
IsLimited v device project disk_mb =
    ((v.limits device project).block_hard ≡ disk_mb * 2048)
    × ((v.limits device project).inode_hard ≡ disk_mb * 256)

module _ {W : Type 0} {kernel : Kernel W} (readable : IsReadable kernel) where
  open readable use {view, opened}

  abbrev Sees : View → W → Type 0
  Sees v w = view w ≡ v

  open_Sees : (v : View) (path : Bytes) → Preserves (Sees v) (kernel.open_directory path)
  open_Sees v path = record { from = λ w h. readable.view-open w path ∙ h }

  get_attributes_Sees : (v : View) (fd : ℕ) → Preserves (Sees v) (kernel.get_attributes fd)
  get_attributes_Sees v fd = record { from = λ w h. readable.view-get_attributes w fd ∙ h }

  close_Sees : (v : View) (fd : ℕ) → Preserves (Sees v) (kernel.close fd)
  close_Sees v fd = record { from = λ w h. readable.view-close w fd ∙ h }

  check_directory-Sees :
      (v : View) (project : ℕ) (path : Bytes)
      → Preserves (Sees v) (check_directory kernel project path)
  unfolding check_directory check_opened
  check_directory-Sees v project path =
      search (preserves_rules, open_Sees, get_attributes_Sees, close_Sees) depth 9

  check_opened_lem :
      (project fd : ℕ) (w : W)
      → succeeded (check_opened kernel project fd w).0 ≡ true
      → IsCharged (view w) project (opened w fd)
  unfolding check_opened ◌>>=◌ refuse_if
  check_opened_lem project fd w h = elim (Result-cases (kernel.get_attributes fd w).0) [
    | inl (a, got) ↦
        let same = readable.get_attributes_lem w fd a got in
        (ground (arith, got, same), ground (arith, got, same))
    | inr (e, failed) ↦ ground (arith, failed)
  ]

  check_directory_lem :
      (project : ℕ) (path : Bytes) (w : W)
      → succeeded (check_directory kernel project path w).0 ≡ true
      → IsCharged (view w) project path
  unfolding check_directory ◌>>=◌ deferring
  check_directory_lem project path w h = elim (Result-cases (kernel.open_directory path w).0) [
    | inl (fd, got) ↦
        let w' = (kernel.open_directory path w).1 in
        let charged_there = check_opened_lem project fd w' (ground (arith, got)) in
        rw (readable.view-open w path, readable.open_directory_lem w path fd got) at charged_there
    | inr (e, failed) ↦ ground (arith, failed)
  ]

  check_each : ℕ → List Bytes → Exec (Sys W) (Unit {0})
  check_each project paths =
      for_each paths (λ path. call Call.check_directory (check_directory kernel project path))

  check_each-Sees :
      (v : View) (project : ℕ) (paths : List Bytes)
      → Preserves (λ (s : Sys W). Sees v s.world) (check_each project paths)
  unfolding check_each
  check_each-Sees v project paths =
      Preserves-for_each paths _
        λ path. Preserves-call (Sees v) _ _ (check_directory-Sees v project path)

  check_each_lem :
      (project : ℕ) (paths : List Bytes) (s : Sys W)
      → succeeded (check_each project paths s).0 ≡ true
      → All (IsCharged (view s.world) project) paths
  unfolding check_each for_each ◌>>=◌ call
  check_each_lem project [] s h = tt
  check_each_lem project (p ∷ paths) s h =
      elim (Result-cases (check_directory kernel project p s.world).0) [
        | inl (u, passed) ↦
            let s' = (call Call.check_directory (check_directory kernel project p) s).1 in
            let here = check_directory_lem project p s.world (ground (arith, passed)) in
            let later = check_each_lem project paths s' (ground (arith, passed)) in
            let seen = (check_directory-Sees (view s.world) project p).from s.world refl in
            (here, rw seen at later)
        | inr (e, failed) ↦ ground (arith, failed)
      ]

  -- What reading back shows, and still shows at the end.
  abbrev pub IsEnforced : View → Bytes → Bytes → ℕ → ℕ → Type 0
  IsEnforced v device parent project disk_mb =
      IsLimited v device project disk_mb × All (IsCharged v project) (charged parent)

  module _ (device parent : Bytes) (project disk_mb : ℕ) where
    -- Behind a quota that has been read.
    compare_limits : DiskQuota → Exec (Sys W) (Unit {0})
    compare_limits q = do
      refuse_if (not (same_limits q (limits_of disk_mb)))
          (message "project quota limits do not match sandbox configuration")
      check_each project (charged parent)

    compare_limits_lem :
        (q : DiskQuota) (s : Sys W)
        → q ≡ (view s.world).limits device project
        → succeeded (compare_limits q s).0 ≡ true
        → IsEnforced (view s.world) device parent project disk_mb
    unfolding compare_limits ◌>>=◌ refuse_if same_limits limits_of
    compare_limits_lem q s e h = elim (Bool-cases (same_limits q (limits_of disk_mb))) [
      | inl same ↦
          let each = check_each_lem project (charged parent) s (ground (arith, same)) in
          ((ground (arith, same, e), ground (arith, same, e)), each)
      | inr other ↦ ground (arith, other)
    ]

    get_quota_Sees :
        (v : View)
        → Preserves
            (λ (s : Sys W). Sees v s.world)
            (call Call.read_limits (kernel.get_quota device project))
    get_quota_Sees v =
        Preserves-call (Sees v) _ _
          record { from = λ w h. readable.view-get_quota w device project ∙ h }

    check_limits-Sees :
        (v : View)
        → Preserves
            (λ (s : Sys W). Sees v s.world)
            (check_limits kernel device parent project (limits_of disk_mb))
    unfolding check_limits explaining check_each
    check_limits-Sees v = search (preserves_rules, get_quota_Sees, check_each-Sees) depth 9

    limits_that_pass :
        (s : Sys W)
        → succeeded (check_limits kernel device parent project (limits_of disk_mb) s).0 ≡ true
        → IsEnforced (view s.world) device parent project disk_mb
    unfolding check_limits explaining ◌>>=◌ attempt handle call pure raise compare_limits check_each
    limits_that_pass s h = elim (Result-cases (kernel.get_quota device project s.world).0) [
      | inl (q, got) ↦
          let s' = (call Call.read_limits (kernel.get_quota device project) s).1 in
          let same = readable.view-get_quota s.world device project in
          let told = readable.get_quota_lem s.world device project q got in
          let there = compare_limits_lem q s' (rw same told) (ground (arith, got)) in
          rw same at there
      | inr (e, failed) ↦ ground (arith, failed)
    ]

    check_limits_lem :
        (s : Sys W)
        → let (r, s') = check_limits kernel device parent project (limits_of disk_mb) s in
          succeeded r ≡ true → IsEnforced (view s'.world) device parent project disk_mb
    check_limits_lem s h =
        let seen = (check_limits-Sees (view s.world)).from s refl in rw seen (limits_that_pass s h)

  -- The charged directory and project are those of the mounts, and some device has the limits.
  abbrev pub IsInForce : List Mount → ℤ → View → Type 0
  IsInForce ms disk_mb v =
      (place : Bytes × ℕ) × (snapshot_quota_path ms ≡ ok place)
      × ((device : Bytes) × IsEnforced v device place.0 place.1 (to_ℕ disk_mb))

  enforced_on :
      (ms : List Mount) (place : Bytes × ℕ) (disk_mb : ℤ) (prepare : Bool)
      → snapshot_quota_path ms ≡ ok place
      → Achieves
          (λ (s : Sys W). IsInForce ms disk_mb (view s.world))
          (enforce_on kernel place (to_ℕ disk_mb) prepare)
  unfolding enforce_on
  enforced_on ms (parent, project) disk_mb prepare e = Achieves-bind _ _ λ device.
      Achieves-bind _ _ λ _. record {
        from = λ s h. (
          (parent, project),
          e,
          (device, check_limits_lem device parent project (to_ℕ disk_mb) s h),
        );
      }

  in_force :
      (ms : List Mount) (disk_mb : ℤ) (prepare : Bool)
      → Achieves
          (λ (s : Sys W).
            (below disk_mb 16 || above disk_mb 1048576 ≡ false)
            × IsInForce ms disk_mb (view s.world))
          (enforce_quota kernel ms disk_mb prepare)
  unfolding enforce_quota
  in_force ms disk_mb prepare = Achieves-refuse_if _ _ _ λ sized.
      Achieves-lift _ _ λ place e. record {
        from = λ s h. (sized, (enforced_on ms place disk_mb prepare e).from s h);
      }

  -- When `enforceQuota` succeeds, be it to prepare a sandbox or to check one, the size is from 16
  -- MiB to 1 TiB, and the state that it leaves has the hard limits of this size on some device, for
  -- the project of the snapshot's mounts; the directory of the snapshot, its `fs` and its `work`
  -- are all charged to this project and hand it on. This is read back from the kernel: it needs no
  -- assumption that a call which sets a limit or an attribute has an effect.
  pub enforce_quota-IsInForce :
      (ms : List Mount) (disk_mb : ℤ) (prepare : Bool) (s : Sys W)
      → let (r, s') = enforce_quota kernel ms disk_mb prepare s in
        succeeded r ≡ true
        → (below disk_mb 16 ≡ false)
          × (above disk_mb 1048576 ≡ false)
          × IsInForce ms disk_mb (view s'.world)
  enforce_quota-IsInForce ms disk_mb prepare s h =
      let (sized, rest) = (in_force ms disk_mb prepare).from s h in
      (ground (arith, sized), ground (arith, sized), rest)
