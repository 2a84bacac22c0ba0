-- ===== src/Runtime/Inventory.antt =====
-- `List` of services/containerd-runtime/reliability.go.
pub mod Laws
use sandcube.Prelude.{String, Bool, not, List, [], ◌∷◌, ◌++◌, if◌then◌else◌}
use sandcube.Exec.{Exec, not_found, pure, raise, attempt, handle, ◌>>=◌, ◌>>◌}
use sandcube.Calls.{Call, Sys, call}
use sandcube.Paths.{bytes}
use sandcube.Server.Limits.{is_valid_id}
use sandcube.Runtime.Types.{Sandbox}
use sandcube.Runtime.Engine.{Engine}
use sandcube.Runtime.Container.{load, describe}

-- What is enumerated: the containers with the owner's label, all containers, the overlayfs snapshots
-- with their labels, and the entries of the history directory with whether one is a directory.
pub record Catalog (W : Type 0) : Type 0 where
  pub managed : Exec W (List String)
  pub containers : Exec W (List String)
  pub snapshots : Exec W (List (String × (String → String)))
  pub histories : Exec W (List (String × Bool))

module _ {W : Type 0} (engine : Engine W) (catalog : Catalog W) where
  -- A container that is gone by now, or is not managed, is passed over.
  unfoldable pub list_one : String → Exec (Sys W) (List Sandbox)
  list_one id =
      if not (is_valid_id (bytes id))
      then pure []
      else attempt (load engine id)
        >>= handle (λ _. describe engine id >>= λ s. pure (s ∷ []))
            (λ e. if e.is not_found then pure [] else raise e)

  unfoldable pub list_each : List String → Exec (Sys W) (List Sandbox)
  list_each [] = pure []
  list_each (id ∷ ids) = do found ← list_one id; rest ← list_each ids; pure (found ++ rest)

  unfoldable pub list : Exec (Sys W) (List Sandbox)
  list = call Call.list_containers catalog.managed >>= list_each
