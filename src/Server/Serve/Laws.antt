-- ===== src/Server/Serve/Laws.antt =====
-- Every request keeps the discipline of the locks and of the checks.
use sandcube.Prelude.{ℕ, ◌≡◌, refl, ◌∙◌, true, false, none, some, List, [], ◌∷◌, arith}
use sandcube.Exec.{Result, ok, err, Exec}
use sandcube.Paths.{Bytes, bytes}
use sandcube.Runtime.Types.{Config, ExecRequest}
use sandcube.Server.Limits.{is_valid_id, is_rejected_config, is_rejected_exec, is_rejected_process}
use sandcube.Server.Handler.{
  Method, method_get, method_post, method_delete, Request, Operation, Backend, Json, ran,
  sandbox_key, Serving, deadline, release,
}
use sandcube.Server.Serve.{
  perform, serve_part, serve_reconcile, image_operation, serve_images, serve_create, serve_files,
  serve_start_process, process_route, serve_processes, after_prepare, exec_prepared, exec_unlocked,
  serve_exec, action_route, bare_route, sandbox_route, serve_sandbox, serve_health, route_by_parts,
  route_post, route_get, route, arriving, serve,
}
use sandcube.Server.Serve.Guard.{
  may_run, holder, is_guarded, same_refl, Tidy, Tidies, release-Tidy, tidy_rules,
}

may_run-create :
    (c : Config)
    → is_rejected_config c ≡ false
    → may_run (Operation.create c) (some (sandbox_key (bytes c.id))) ≡ true
may_run-create c h = ground (arith, same_refl (bytes c.id))

may_run-start_process :
    (id : Bytes) (req : ExecRequest)
    → is_valid_id id ≡ true
    → is_rejected_process req ≡ false
    → may_run (Operation.start_process id req) (some (sandbox_key id)) ≡ true
may_run-start_process id req v h = ground (arith, same_refl id)

may_run-prepare_exec :
    (id : Bytes) (req : ExecRequest)
    → is_valid_id id ≡ true
    → is_rejected_exec req ≡ false
    → may_run (Operation.prepare_exec id req) (some (sandbox_key id)) ≡ true
may_run-prepare_exec id req v h = ground (arith, same_refl id)

module _ {W J : Type 0} (json : Json) (b : Backend W J) where
  images-Tidies : (r : Request) (verb : Bytes) → Tidies none (serve_images json b r verb)
  unfolding serve_images image_operation
  images-Tidies r verb = search tidy_rules depth 12

  create-Tidies : (r : Request) → Tidies none (serve_create json b r)
  unfolding serve_create
  create-Tidies r = search (tidy_rules, may_run-create) depth 12

  module _ (id : Bytes) (valid : is_valid_id id ≡ true) where
    files-Tidies : (r : Request) → Tidies (some (sandbox_key id)) (serve_files json b r id)
    unfolding serve_files
    files-Tidies r = search (tidy_rules, same_refl, valid) depth 12

    start_process-Tidies :
        (r : Request) → Tidies (some (sandbox_key id)) (serve_start_process json b r id)
    unfolding serve_start_process
    start_process-Tidies r = search (tidy_rules, may_run-start_process, valid) depth 12

    process_route-Tidies :
        (r : Request) (m : Method) (rest : List Bytes)
        → Tidies (some (sandbox_key id)) (process_route json b r m id rest)
    unfolding process_route
    process_route-Tidies r method_post [] = start_process-Tidies r
    process_route-Tidies r method_get [] = search (tidy_rules, same_refl, valid) depth 12
    process_route-Tidies r method_get (pid ∷ []) = search (tidy_rules, same_refl, valid) depth 12
    process_route-Tidies r method_get (pid ∷ (verb ∷ [])) =
        search (tidy_rules, same_refl, valid) depth 12
    process_route-Tidies r method_post (pid ∷ (verb ∷ [])) =
        search (tidy_rules, same_refl, valid) depth 12
    process_route-Tidies r m rest = search tidy_rules depth 12

    processes-Tidies :
        (r : Request) (rest : List Bytes)
        → Tidies (some (sandbox_key id)) (serve_processes json b r id rest)
    unfolding serve_processes
    processes-Tidies r rest = search (tidy_rules, process_route-Tidies) depth 12

    module _ (req : ExecRequest) (fit : is_rejected_exec req ≡ false) where
      after_prepare-Tidies : (r : Result (Exec W J)) → Tidies none (after_prepare json b id req r)
      after_prepare-Tidies (ok wait) = search (tidy_rules, valid, fit) depth 12
      after_prepare-Tidies (err e) = record { from = λ s t h. t; gives_back = λ s h. h }

      prepared_guarded :
          (s : Serving W)
          → Tidy s
          → s.unlock ≡ some (sandbox_key id)
          → is_guarded (ran (Operation.prepare_exec id req) ∷ s.events) ≡ true
      prepared_guarded s (g, h) e = ground (arith, may_run-prepare_exec id req valid fit)

      exec_prepared-Tidies : Tidies (some (sandbox_key id)) (exec_prepared json b id req)
      unfolding exec_prepared
      exec_prepared-Tidies = record {
        from = λ s t e.
            let (r, w) = b.prepare id req s.world in
            (after_prepare-Tidies r).from _
              (release-Tidy
                record s { world = w; events = ran (Operation.prepare_exec id req) ∷ s.events }
                (prepared_guarded s t e, t.1))
              refl;
        gives_back = λ s e. (after_prepare-Tidies (b.prepare id req s.world).0).gives_back _ refl;
      }

      unlocked-Tidies : Tidies none (perform json b (Operation.exec id req))
      unlocked-Tidies = search (tidy_rules, valid, fit) depth 12

      exec_unlocked-Tidies : Tidies (some (sandbox_key id)) (exec_unlocked json b id req)
      unfolding exec_unlocked
      exec_unlocked-Tidies = record {
        from = λ s t e. unlocked-Tidies.from (release s) (release-Tidy s t) refl;
        gives_back = λ s e. unlocked-Tidies.gives_back (release s) refl;
      }

    exec-Tidies : (r : Request) → Tidies (some (sandbox_key id)) (serve_exec json b r id)
    unfolding serve_exec
    exec-Tidies r = search (tidy_rules, exec_prepared-Tidies, exec_unlocked-Tidies) depth 12

    ruleset sandbox_rules = (tidy_rules, same_refl, exec-Tidies, processes-Tidies, files-Tidies)

    action_route-Tidies :
        (r : Request) (m : Method) (verb : Bytes)
        → Tidies (some (sandbox_key id)) (action_route json b r m id verb)
    unfolding action_route
    action_route-Tidies r method_post verb = search (sandbox_rules, valid) depth 12
    action_route-Tidies r m verb = search (sandbox_rules, valid) depth 12

    bare_route-Tidies : (m : Method) → Tidies (some (sandbox_key id)) (bare_route json b m id)
    unfolding bare_route
    bare_route-Tidies method_get = search (sandbox_rules, valid) depth 12
    bare_route-Tidies method_delete = search (sandbox_rules, valid) depth 12
    bare_route-Tidies m = search (sandbox_rules, valid) depth 12

    sandbox_route-Tidies :
        (r : Request) (rest : List Bytes)
        → Tidies (some (sandbox_key id)) (sandbox_route json b r id rest)
    unfolding sandbox_route
    sandbox_route-Tidies r [] = bare_route-Tidies r.method
    sandbox_route-Tidies r (verb ∷ []) = search (sandbox_rules, valid, action_route-Tidies) depth 12
    sandbox_route-Tidies r (verb ∷ (x ∷ rest)) = search (sandbox_rules, valid) depth 12

  sandbox-Tidies :
      (r : Request) (id : Bytes) (rest : List Bytes) → Tidies none (serve_sandbox json b r id rest)
  unfolding serve_sandbox
  sandbox-Tidies r id rest = search (tidy_rules, sandbox_route-Tidies) depth 12

  health-Tidies : Tidies none (serve_health json b)
  unfolding serve_health
  health-Tidies = record { from = λ s t e. ground arith; gives_back = λ s e. e }

  by_parts-Tidies : (r : Request) (ps : List Bytes) → Tidies none (route_by_parts json b r ps)
  unfolding route_by_parts
  by_parts-Tidies r [] = search tidy_rules depth 12
  by_parts-Tidies r (p ∷ []) = search tidy_rules depth 12
  by_parts-Tidies r (area ∷ (name ∷ rest)) =
      search (tidy_rules, images-Tidies, sandbox-Tidies) depth 12

  route-Tidies : (r : Request) (m : Method) → Tidies none (route json b r m)
  unfolding route route_get route_post serve_part serve_reconcile
  route-Tidies r method_get = search (tidy_rules, health-Tidies, by_parts-Tidies) depth 12
  route-Tidies r method_post = search (tidy_rules, create-Tidies, by_parts-Tidies) depth 12
  route-Tidies r m = search (tidy_rules, by_parts-Tidies) depth 12

-- Whatever the request, the bodies and the runtime do: every operation on a sandbox runs while the
-- request holds the lock of that sandbox, waiting for a command runs while it holds none, and
-- reconciliation runs under the lifecycle lock; the IDs, image references, configurations and commands
-- that reach the runtime have passed their checks; and at the end nothing is held.
pub serve_guards :
    {W J : Type 0} (json : Json) (runtime : ℕ → Backend W J) (r : Request) (w : W)
    → let s = (serve json runtime r w).1 in (is_guarded s.events ≡ true) × (holder s.events ≡ none)
unfolding serve
serve_guards json runtime r w =
    let t = route-Tidies json (runtime (deadline r)) r r.method in
    let (g, h) = t.from (arriving w) (refl, refl) refl in (g, h ∙ t.gives_back (arriving w) refl)
