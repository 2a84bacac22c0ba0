-- ===== src/Tests/Swept.antt =====
-- The theorem on the snapshots that are cleaned up at a host with one that no container uses.
use sandcube.Prelude.{
  String, str_eq, eq_iff, ◌≡◌, refl, ◌⊎◌, inl, inr, Bool, true, false, ◌&&◌, ◌||◌, [], ◌∷◌, arith,
  Bool-cases,
}
use sandcube.Exec.{ok, OnOk, ◌>>=◌, handle, for_each, refuse_if}
use sandcube.Calls.{fresh, call}
use sandcube.Reconcile.{orphans, used_keys, clean_snapshot, sweep_snapshots}
use sandcube.Reconcile.Snapshots.{IsOrphan}
use sandcube.Reconcile.Swept.{is_listed, IsRemoving, sweep_snapshots_lem}
use sandcube.Tests.Sites.{Site, erase, site_engine, site_catalog, holders, site-IsSweeping}

abbrev is_known : String → Bool
is_known key = str_eq "sbx_a" key || str_eq "sbx_old" key

walk_finds :
    (w : Site) (key : String)
    → (is_listed key (("sbx_a", λ l. "true") ∷ ("sbx_old", λ l. "true") ∷ []) ≡ true)
      ⊎ ((is_known key && w key) ≡ false)
walk_finds w key = elim (Bool-cases (is_known key)) [
  | inl known ↦ inl (ground (arith, known))
  | inr unknown ↦ inr (ground (arith, unknown))
]

erased : (w : Site) (key : String) → (is_known key && (erase key w).1 key) ≡ false
erased w key = rw ((eq_iff key key).1 refl) (ground arith)

abbrev site-IsRemoving : IsRemoving site_engine site_catalog holders
site-IsRemoving = record {
  is_there = λ w key. is_known key && w key;
  walk_all = λ w key owned. walk_finds w key;
  remove_lem = λ w key. erased w key;
  remove_only = λ w key other h. ground (arith, h);
}

one_swept : (sweep_snapshots site_engine site_catalog (fresh (λ n. true))).0 ≡ ok 1
unfolding sweep_snapshots used_keys orphans clean_snapshot call ◌>>=◌ handle for_each refuse_if
one_swept = refl

old-IsOrphan : IsOrphan holders "sbx_old"
old-IsOrphan = (refl, (refl, tt))

sweep_snapshots_lem_example :
    let (r, s') = sweep_snapshots site_engine site_catalog (fresh (λ n. true)) in
    OnOk (λ _. (is_known "sbx_old" && s'.world "sbx_old") ≡ false) r
sweep_snapshots_lem_example =
    sweep_snapshots_lem site-IsSweeping site-IsRemoving "sbx_old" old-IsOrphan (fresh (λ n. true))
      refl
