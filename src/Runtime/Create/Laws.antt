-- ===== src/Runtime/Create/Laws.antt =====
-- The order of the calls of `Create`, its rollback, and what it leaves alone.
use sandcube.Prelude.{String}
use sandcube.Exec.Rules.{Preserves}
use sandcube.Runtime.Types.{Config}
use sandcube.Calls.{Call, Sys, fresh, Follows}
use sandcube.Calls.Laws.{call_rules}
use sandcube.Runtime.Engine.{Engine, Services}
use sandcube.Runtime.Container.{load, describe}
use sandcube.Runtime.Create.{
  reuse, refuse_occupied, recover_snapshot, provide_image, build_container, new_container,
  create_fresh, create,
}

module _ {W : Type 0} (engine : Engine W) (services : Services W)
    (fingerprint : Config → String) where
  abbrev Ordered : Call → Call → Sys W → Type 0
  Ordered c d s = Follows c d s.calls

  create-commit :
      (cfg : Config)
      → Preserves
          (Ordered Call.commit_container Call.prepare_quota)
          (create engine services fingerprint cfg)
  unfolding create create_fresh reuse load describe refuse_occupied recover_snapshot provide_image
      new_container build_container
  create-commit cfg = search call_rules depth 20

  create-new_snapshot :
      (cfg : Config)
      → Preserves
          (Ordered Call.new_snapshot Call.reclaim_quota)
          (create engine services fingerprint cfg)
  unfolding create create_fresh reuse load describe refuse_occupied recover_snapshot provide_image
      new_container build_container
  create-new_snapshot cfg = search call_rules depth 20

  -- The order of the calls of `Create`, whatever the host answers: it makes a snapshot only after a
  -- reclaim of a quota has succeeded, and writes the container record only after the preparation of
  -- a quota has succeeded.
  pub create_order :
      (cfg : Config) (w : W)
      → let calls = (create engine services fingerprint cfg (fresh w)).1.calls in
        Follows Call.new_snapshot Call.reclaim_quota calls
        × Follows Call.commit_container Call.prepare_quota calls
  create_order cfg w = ((create-new_snapshot cfg).from _ tt, (create-commit cfg).from _ tt)
