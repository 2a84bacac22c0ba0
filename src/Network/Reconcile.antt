-- ===== src/Network/Reconcile.antt =====
-- `reconcileNetworks` of services/containerd-runtime/network.go.
pub mod Sparing
pub mod Laws
use Prim.Native.String
use sandcube.Prelude.{String, str_eq, Bool, not, ◌||◌, List, if◌then◌else◌}
use sandcube.Exec.{
  Err, Exec, not_found, message, pure, raise, attempt, handle, skip, refuse_if, for_each, ◌>>=◌,
  ◌>>◌,
}
use sandcube.Calls.{Call, Sys, call}
use sandcube.Paths.{bytes}
use sandcube.Server.Limits.{is_valid_id}
use sandcube.Runtime.Types.{Sandbox}
use sandcube.Runtime.Engine.{Engine}
use sandcube.Runtime.Container.{inspect}
use sandcube.Network.Host.{Host}
use sandcube.Network.Remove.{remove_network}

-- `strings.TrimSuffix(name, ".json")`
unfoldable pub trim_json : String → String
trim_json String.[] = ""
trim_json (String.◌∷◌ c s) =
    let rest = trim_json s in if str_eq (String.◌∷◌ c s) ".json" then "" else String.◌∷◌ c rest

-- The base names of the files that Glob finds.
pub record Journals (W : Type 0) : Type 0 where
  pub list_journals : Exec W (List String)

module _ {W : Type 0} (engine : Engine W) (host : Host W) (journals : Journals W) where
  -- The network of a sandbox that does not run, or is not there, goes.
  unfoldable pub reconcile_network : String → Exec (Sys W) (Unit {0})
  reconcile_network id = do
    refuse_if (not (is_valid_id (bytes id))) (message "invalid network journal filename")
    attempt (inspect engine id)
        >>= handle
            (λ sandbox.
              if not (str_eq sandbox.status "running") then remove_network host id else skip)
            (λ e. if not (e.is not_found) then raise e else remove_network host id)

  unfoldable pub reconcile_networks : Exec (Sys W) (Unit {0})
  reconcile_networks = do
    names ← call Call.list_network_journals journals.list_journals
    for_each names λ name. reconcile_network (trim_json name)
