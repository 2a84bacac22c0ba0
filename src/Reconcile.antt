-- ===== src/Reconcile.antt =====
-- `Reconcile` of services/containerd-runtime/reliability.go. `imageMu` makes it one step against
-- `Create` and the operations on images.
pub mod Snapshots
pub mod Swept
pub mod Histories
pub mod Laws
use sandcube.Prelude.{
  ℕ, String, str_eq, Bool, not, ◌&&◌, ◌||◌, Option, none, some, List, [], ◌∷◌, length, any,
  if◌then◌else◌,
}
use sandcube.Exec.{
  Exec, not_found, pure, raise, attempt, handle, skip, refuse_if, for_each, ◌>>=◌, ◌>>◌,
}
use sandcube.Calls.{Call, Sys, call}
use sandcube.Paths.{bytes}
use sandcube.Server.Limits.{is_valid_id}
use sandcube.Runtime.Types.{owner_label}
use sandcube.Runtime.Engine.{Engine}
use sandcube.Runtime.Container.{load}
use sandcube.Runtime.Inventory.{Catalog}
use sandcube.Quota.Kernel.{Kernel}
use sandcube.Quota.Journal.{reconcile_quotas}
use sandcube.Network.Host.{Host}
use sandcube.Network.Reconcile.{Journals, reconcile_networks}
use sandcube.Processes.{Machine, Shim, within}
use sandcube.Processes.Use.{Woken, settle_processes, forget_processes}
use sandcube.Processes.Recover.{cleanup_process_records}

-- `used[name]`
abbrev pub is_used : List String → String → Bool
is_used used name = any (λ key. str_eq key name) used

-- The snapshots that the callback of Walk collects: ours by their label, and used by no container.
unfoldable pub orphans : List String → List (String × (String → String)) → List String
orphans used [] = []
orphans used ((name, labels) ∷ infos) =
    let rest = orphans used infos in
    if str_eq (labels owner_label) "true" && not (is_used used name) then name ∷ rest else rest

module _ {W : Type 0} (engine : Engine W) (catalog : Catalog W) where
  -- The snapshots of these containers.
  unfoldable pub used_keys : List String → Exec (Sys W) (List String)
  used_keys [] = pure []
  used_keys (id ∷ ids) = do
    info ← call Call.container_info (engine.container_info id)
    rest ← used_keys ids
    pure (info.snapshot_key ∷ rest)

  unfoldable pub clean_snapshot : String → Exec (Sys W) (Unit {0})
  clean_snapshot key =
      attempt (call Call.remove_snapshot (engine.remove_snapshot key))
      >>= handle (λ _. skip) (λ e. refuse_if (not (e.is not_found)) e)

  unfoldable pub sweep_snapshots : Exec (Sys W) ℕ
  sweep_snapshots = do
    ids ← call Call.list_containers catalog.containers
    used ← used_keys ids
    infos ← call Call.walk_snapshots catalog.snapshots
    for_each (orphans used infos) clean_snapshot
    pure (length (orphans used infos))

module _ {W : Type 0} (engine : Engine W) (catalog : Catalog W) (shim : Shim W)
    (await : String → Exec (Sys (Machine W)) (Unit {0}))
    (race : String → Exec (Sys (Machine W)) Woken) where
  -- The history of a sandbox that has no container.
  unfoldable pub drop_history : String → Exec (Sys (Machine W)) (Unit {0})
  drop_history id = settle_processes shim await race id >> forget_processes shim id

  unfoldable pub sweep_entry : String × Bool → Exec (Sys (Machine W)) (Unit {0})
  sweep_entry (name, is_directory) =
      if not is_directory || not (is_valid_id (bytes name))
      then skip
      else attempt (within (load engine name))
        >>= handle (λ _. skip) (λ e. if e.is not_found then drop_history name else raise e)

  unfoldable pub sweep_histories : Exec (Sys (Machine W)) (Unit {0})
  sweep_histories =
      within (call Call.list_history catalog.histories) >>= λ entries. for_each entries sweep_entry

  module _ (kernel : Kernel W) (host : Host W) (journals : Journals W) where
    -- The networks, once the quotas are done.
    unfoldable pub finish_reconcile : ℕ → Option (Unit {0}) → Exec (Sys (Machine W)) (Option ℕ)
    finish_reconcile cleaned none = pure none
    finish_reconcile cleaned (some _) =
        within (reconcile_networks engine host journals) >> pure (some cleaned)

    -- How many snapshots were cleaned. Nothing is given where the looks at a quota are used up.
    unfoldable pub reconcile : ℕ → Exec (Sys (Machine W)) (Option ℕ)
    reconcile looks = do
      cleanup_process_records shim
      cleaned ← within (sweep_snapshots engine catalog)
      sweep_histories
      reclaimed ← within (reconcile_quotas kernel looks)
      finish_reconcile cleaned reclaimed
