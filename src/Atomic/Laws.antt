-- ===== src/Atomic/Laws.antt =====
-- A crash at any moment leaves the old record or the new one, whole.
use sandcube.Prelude.{ℕ, ◌≡◌, ◌≢◌, ◌⊎◌, inl, inr, true, Option, some, [], ◌∷◌, All}
use sandcube.Exec.{Err, Result, ok, err, succeeded, OnOk, Exec, lift, ◌>>=◌, ◌>>◌}
use sandcube.Exec.Leads.{Leads, Leads-bind, Leads-attempt, Leads-deferring}
use sandcube.Paths.{Bytes, dir}
use sandcube.Atomic.{Disk, Passed, noting, noted, sync_parent, publish, write_atomic, atomic_json}

-- The calls on a disk, and the ones that leave what a crash may find under `path`.
abbrev pub Leaves : {W A : Type 0} → (W → Option Bytes → Type 0) → Exec W A → Type 0
Leaves {W} May m = (w : W) (c : Option Bytes) → May (m w).1 c → May w c

-- What a crash now may leave under `path`, a content or nothing, and what is known of a new file:
-- that it has been made, has a content, has it on disk, and stands under `path`, of which a directory
-- that is open is the parent. Only a rename reaches `path`: it leaves there what was there or the
-- file. Sync of the parent makes it last.
pub record IsJournaling {W : Type 0} (disk : Disk W) (path : Bytes) : Type 1 where
  pub May : W → Option Bytes → Type 0
  pub Made : W → ℕ × Bytes → Type 0
  pub Written : W → ℕ × Bytes → Bytes → Type 0
  pub Stored : W → ℕ × Bytes → Bytes → Type 0
  pub Renamed : W → Bytes → Type 0
  pub Opened : W → ℕ → Bytes → Type 0
  pub may-create : Leaves May (disk.create_temp (dir path))
  pub may-write : (fd : ℕ) (b : Bytes) → Leaves May (disk.write fd b)
  pub may-sync : (fd : ℕ) → Leaves May (disk.sync fd)
  pub may-close : (fd : ℕ) → Leaves May (disk.close fd)
  pub may-remove : (name : Bytes) → name ≢ path → Leaves May (disk.remove name)
  pub may-open : Leaves May (disk.open_directory (dir path))
  pub may-sync_directory : (d : ℕ) → Leaves May (disk.sync_directory d)
  pub create_lem :
      (w : W) → OnOk (Made (disk.create_temp (dir path) w).1) (disk.create_temp (dir path) w).0
  -- the new file has a name of its own
  pub other_name : (w : W) (t : ℕ × Bytes) → Made w t → t.1 ≢ path
  pub write_lem :
      (w : W) (t : ℕ × Bytes) (b : Bytes)
      → Made w t
      → OnOk (λ _. Written (disk.write t.0 b w).1 t b) (disk.write t.0 b w).0
  pub sync_lem :
      (w : W) (t : ℕ × Bytes) (b : Bytes)
      → Written w t b
      → OnOk (λ _. Stored (disk.sync t.0 w).1 t b) (disk.sync t.0 w).0
  pub close_lem :
      (w : W) (t : ℕ × Bytes) (b : Bytes) → Stored w t b → Stored (disk.close t.0 w).1 t b
  pub may-rename :
      (w : W) (t : ℕ × Bytes) (b : Bytes) (c : Option Bytes)
      → Stored w t b
      → May (disk.rename t.1 path w).1 c
      → May w c ⊎ (c ≡ some b)
  pub rename_lem :
      (w : W) (t : ℕ × Bytes) (b : Bytes)
      → Stored w t b
      → OnOk (λ _. Renamed (disk.rename t.1 path w).1 b) (disk.rename t.1 path w).0
  pub open_lem :
      (w : W) (b : Bytes)
      → Renamed w b
      → OnOk
          (λ d. Opened (disk.open_directory (dir path) w).1 d b)
          (disk.open_directory (dir path) w).0
  pub sync_directory_lem :
      (w : W) (d : ℕ) (b : Bytes)
      → Opened w d b
      → OnOk
          (λ _. (c : Option Bytes) → May (disk.sync_directory d w).1 c → c ≡ some b)
          (disk.sync_directory d w).0

module _ {W : Type 0} {disk : Disk W} {path : Bytes} (journaling : IsJournaling disk path)
    (start : W) (new : Bytes) where
  open journaling use {May}

  -- What may be found is what might have been found at the start, or the new content.
  abbrev pub IsWhole : W → Type 0
  IsWhole w = (c : Option Bytes) → May w c → May start c ⊎ (c ≡ some new)

  abbrev pub IsNew : W → Type 0
  IsNew w = (c : Option Bytes) → May w c → c ≡ some new

  abbrev Whole : Passed W → Type 0
  Whole s = IsWhole s.0 × All IsWhole s.1

  abbrev Knows : {A : Type 0} → (Result A → W → Type 0) → Result A → Passed W → Type 0
  Knows Q r s = Whole s × Q r s.0

  -- A call that is noted: the state behind it is whole, as those before it.
  noting_lem :
      {A : Type 0} (P : W → Type 0) (Q : Result A → W → Type 0) (m : Exec W A)
      → ((w : W) → IsWhole w → P w → IsWhole (m w).1)
      → ((w : W) → P w → Q (m w).0 (m w).1)
      → Leads (λ s. Whole s × P s.0) (Knows Q) (noting m)
  unfolding noting
  noting_lem P Q m k l = record {
    from = λ s h. let here = k s.0 h.0.0 h.1 in ((here, (here, h.0.1)), l s.0 h.1);
  }

  -- One that leaves `path` alone.
  leaving :
      {A : Type 0} (P : W → Type 0) (Q : Result A → W → Type 0) (m : Exec W A)
      → Leaves May m
      → ((w : W) → P w → Q (m w).0 (m w).1)
      → Leads (λ s. Whole s × P s.0) (Knows Q) (noting m)
  leaving P Q m k l = noting_lem P Q m (λ w h p c found. h c (k w c found)) l

  -- Where it fails, nothing more is known.
  abbrev Then : {A : Type 0} → (A → W → Type 0) → Result A → W → Type 0
  Then Q r w = OnOk (λ a. Q a w) r

  abbrev Final : Result (Unit {0}) → Passed W → Type 0
  Final r s = Knows (Then (λ _ w. IsNew w)) r s

  IsNew-kept : {A : Type 0} (m : Exec W A) → Leaves May m → (w : W) → IsNew w → IsNew (m w).1
  IsNew-kept m k w h c found = h c (k w c found)

  -- What is deferred leaves a result as it is.
  Final-kept :
      {A : Type 0} (r : Result (Unit {0})) (m : Exec W A)
      → Leaves May m
      → Leads (Final r) (λ _ s. Final r s) (noting m)
  Final-kept (ok u) m k = leaving (λ w. IsNew w) (λ _ w. IsNew w) m k (IsNew-kept m k)
  Final-kept (err e) m k = leaving (λ _. Unit) (λ _ _. Unit) m k (λ w h. tt)

  parent_Final :
      Leads (λ s. Whole s × journaling.Renamed s.0 new) Final (sync_parent (noted disk) path)
  unfolding sync_parent
  parent_Final =
      Leads-bind (Knows (Then (λ d w. journaling.Opened w d new))) _ _
        (leaving _ _ _ journaling.may-open (λ w h. journaling.open_lem w new h)) (λ e s h. h)
        λ d.
          Leads-deferring _ _
            (leaving _ _ _ (journaling.may-sync_directory d)
              (λ w h. journaling.sync_directory_lem w d new h))
            (λ r. Final-kept r _ (journaling.may-close d))

  abbrev Nothing : Result (Unit {0}) → W → Type 0
  Nothing r w = Unit

  failed : (e : Err) (s : Passed W) → Whole s → Final (err e) s
  failed e s h = (h, tt)

  or_new :
      {c : Option Bytes} {A B : Type 0}
      → (A → B ⊎ (c ≡ some new))
      → A ⊎ (c ≡ some new)
      → B ⊎ (c ≡ some new)
  or_new f (inl a) = f a
  or_new f (inr e) = inr e

  module _ (t : ℕ × Bytes) where
    abbrev OnDisk : W → Type 0
    OnDisk w = journaling.Stored w t new

    -- The content is on disk if both calls succeed.
    fill_lem :
        Leads
          (λ s. Whole s × journaling.Made s.0 t)
          (Knows (Then (λ (u : Unit {0}) w. OnDisk w)))
          (noting (disk.write t.0 new) >> noting (disk.sync t.0))
    fill_lem =
        Leads-bind (Knows (Then (λ (u : Unit {0}) w. journaling.Written w t new))) _ _
          (leaving _ _ _ (journaling.may-write t.0 new) (λ w h. journaling.write_lem w t new h))
          (λ e s h. h)
          λ _. leaving _ _ _ (journaling.may-sync t.0) (λ w h. journaling.sync_lem w t new h)

    -- Closing keeps what is known after the content.
    close_kept :
        (filled : Result (Unit {0}))
        → Leads
            (λ s. Whole s × OnOk (λ _. OnDisk s.0) filled)
            (λ (r : Result (Unit {0})) s. Whole s × OnOk (λ _. OnDisk s.0) filled)
            (noting (disk.close t.0))
    close_kept (ok u) =
        leaving OnDisk (λ _ w. OnDisk w) _ (journaling.may-close t.0)
          (λ w h. journaling.close_lem w t new h)
    close_kept (err e) = leaving (λ _. Unit) (λ _ _. Unit) _ (journaling.may-close t.0) (λ w h. tt)

    rename_Final :
        Leads
          (λ s. Whole s × OnDisk s.0)
          Final
          (noting (disk.rename t.1 path) >> sync_parent (noted disk) path)
    rename_Final =
        Leads-bind (Knows (Then (λ (u : Unit {0}) w. journaling.Renamed w new))) _ _
          (noting_lem _ _ _
            (λ w whole h c found. or_new (whole c) (journaling.may-rename w t new c h found))
            (λ w h. journaling.rename_lem w t new h))
          (λ e s h. h) λ _. parent_Final

    -- Both results are looked at before the rename.
    after_close :
        (filled closed : Result (Unit {0}))
        → Leads
            (λ s. Whole s × OnOk (λ _. OnDisk s.0) filled)
            Final
            (lift filled
              >> (lift closed >> (noting (disk.rename t.1 path) >> sync_parent (noted disk) path)))
    unfolding ◌>>=◌ lift
    after_close (ok u) (ok v) = record { from = λ s h. rename_Final.from s h }
    after_close (ok u) (err e) = record { from = λ s h. failed e s h.0 }
    after_close (err e) closed = record { from = λ s h. failed e s h.0 }

    publish-Final :
        Leads (λ s. Whole s × journaling.Made s.0 t) Final (publish (noted disk) path t new)
    unfolding publish
    publish-Final =
        Leads-attempt (λ r s. Whole s × OnOk (λ _. OnDisk s.0) r) _ _ fill_lem
          λ filled.
            Leads-attempt (λ _ s. Whole s × OnOk (λ _. OnDisk s.0) filled) _ _ (close_kept filled)
              λ closed. after_close filled closed

  write_Final : Leads (λ s. Whole s × Unit {0}) Final (write_atomic (noted disk) path new)
  unfolding write_atomic
  write_Final =
      Leads-bind (Knows (Then (λ t w. journaling.Made w t))) _ _
        (leaving _ _ _ journaling.may-create (λ w h. journaling.create_lem w))
        (λ e s h. failed e s h.0)
        λ t. record {
          from = λ s h.
              let other = journaling.other_name s.0 t h.1 in
              (Leads-deferring _ _ (publish-Final t)
                  (λ r. Final-kept r _ (journaling.may-remove t.1 other))).from
                s h;
        }

  json_Final :
      {A : Type 0} (encode : A → Result Bytes) (value : A)
      → encode value ≡ ok new
      → (s : Passed W) → Whole s
      → let (r, s') = atomic_json (noted disk) path encode value s in Final r s'
  unfolding atomic_json ◌>>=◌ lift
  json_Final encode value e s h = rw e (write_Final.from s (h, tt))

of_success : {A X : Type 0} (r : Result A) → OnOk (λ _. X) r → succeeded r ≡ true → X
of_success (ok a) x h = x
of_success (err e) x h = cc

-- `atomicJSON` of a value that encodes: in every state that the file system goes through, up to the
-- last and wherever the function fails, a crash leaves under the path either what it might have left
-- there before, or the whole new record; and when the function succeeds, a crash leaves the new one.
pub atomic_json-IsWhole :
    {W A : Type 0} {disk : Disk W} {path : Bytes} (journaling : IsJournaling disk path)
    (encode : A → Result Bytes) (value : A) (new : Bytes) (start : W)
    → encode value ≡ ok new
    → let (r, (last, past)) = atomic_json (noted disk) path encode value (start, []) in
      All (IsWhole journaling start new) (last ∷ past)
      × (succeeded r ≡ true → IsNew journaling start new last)
atomic_json-IsWhole journaling encode value new start e =
    let final =
      json_Final journaling start new encode value e (start, []) ((λ c found. inl found), tt) in
    (final.0, of_success _ final.1)
