-- ===== src/Runtime/Create.antt =====
-- `Create` of services/containerd-runtime/runtime.go. It runs under `imageMu`, so no other creation
-- or reconciliation comes between its calls. `fingerprint` is the hash of the encoded configuration.
pub mod Rollback
pub mod Laws
use text.Mathlib.Text.{starts_with}
use sandcube.Prelude.{String, str_eq, Bool, true, false, not, ◌&&◌, if◌then◌else◌}
use sandcube.Exec.{
  Err, Result, ok, err, Exec, sentinel, wrap, join, succeeded, not_found, already_exists, pure,
  raise, attempt, handle, lift, skip, refuse_if, ◌>>=◌, ◌>>◌,
}
use sandcube.Runtime.Types.{Config, Sandbox, owner_label}
use sandcube.Calls.{Call, Sys, call}
use sandcube.Runtime.Spec.{spec_options}
use sandcube.Runtime.Engine.{Engine, Services, Mount}
use sandcube.Runtime.Container.{load, describe}

abbrev pub err_already_exists : Err
err_already_exists = sentinel already_exists "already exists"

-- The error of a failed creation, with that of its rollback unless the snapshot was gone.
unfoldable pub rollback_error : Err → Result (Unit {0}) → Err
rollback_error e (ok _) = e
rollback_error e (err f) = if f.is not_found then e else join e (wrap "snapshot rollback" f)

module _ {W : Type 0} (engine : Engine W) (services : Services W)
    (fingerprint : Config → String) where
  -- The branch for an ID that has a managed container.
  unfoldable pub reuse : Config → Exec (Sys W) Sandbox
  reuse cfg = do
    info ← call Call.container_info (engine.container_info cfg.id)
    refuse_if (not (str_eq (info.labels "sandcube.config") (fingerprint cfg))) err_already_exists
    describe engine cfg.id

  -- An ID that an unmanaged container holds is refused.
  unfoldable pub refuse_occupied : String → Exec (Sys W) (Unit {0})
  refuse_occupied id =
      attempt (call Call.load_container (engine.load_container id))
      >>= handle (λ _. raise err_already_exists) (λ e. refuse_if (not (e.is not_found)) e)

  -- A snapshot that an earlier creation left is removed if it carries the owner's label.
  unfoldable pub recover_snapshot : String → Exec (Sys W) (Unit {0})
  recover_snapshot id =
      attempt (call Call.stat_snapshot (engine.stat_snapshot id))
      >>= handle
          (λ labels.
            if str_eq (labels owner_label) "true"
            then call Call.remove_snapshot (engine.remove_snapshot id)
            else skip)
          (λ e. refuse_if (not (e.is not_found)) e)

  -- An image that is not stored is pulled, unless the image builder supplies it.
  unfoldable pub provide_image : String → Exec (Sys W) (Unit {0})
  provide_image image =
      attempt (call Call.get_image (engine.get_image image))
      >>= handle (λ _. skip)
          (λ e.
            if e.is not_found && not (starts_with image "sandcube.local/")
            then call Call.pull_image (engine.pull_image image)
            else raise e)

  -- The options of `NewContainer` in their order: the snapshot has been made if `snapshot` is ok.
  unfoldable pub build_container : Config → Result (Unit {0}) → Exec (Sys W) (Unit {0})
  build_container cfg snapshot = do
    lift snapshot
    mounts ← call Call.snapshot_mounts (engine.snapshot_mounts "overlayfs" cfg.id)
    call Call.prepare_quota (services.prepare_quota cfg.id cfg mounts)
    call Call.commit_container (
        engine.commit_container cfg (fingerprint cfg)
          (spec_options services.history_root (services.network_path cfg.id) cfg))

  unfoldable pub new_container : Config → Exec (Sys W) Sandbox
  new_container cfg = do
    snapshot ← attempt (call Call.new_snapshot (engine.new_snapshot cfg.id cfg.image))
    attempt (build_container cfg snapshot)
        >>= handle (λ _. pure (record { id = cfg.id; status = "stopped"; snapshot = cfg.id }))
            (λ e.
              if succeeded snapshot
              then attempt (call Call.remove_snapshot (engine.remove_snapshot cfg.id))
                >>= (λ removed. raise (rollback_error e removed))
              else raise e)

  unfoldable pub create_fresh : Config → Exec (Sys W) Sandbox
  create_fresh cfg = do
    refuse_occupied cfg.id
    recover_snapshot cfg.id
    call Call.reclaim_quota (services.reclaim_quota cfg.id)
    provide_image cfg.image
    call Call.unpack_image (engine.unpack_image cfg.image)
    new_container cfg

  unfoldable pub create : Config → Exec (Sys W) Sandbox
  create cfg =
      attempt (load engine cfg.id)
      >>= handle (λ _. reuse cfg) (λ e. if e.is not_found then create_fresh cfg else raise e)
