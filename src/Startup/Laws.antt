-- ===== src/Startup/Laws.antt =====
-- The order in which the adapter starts.
use sandcube.Prelude.{ℕ, ◌≡◌, refl, true, false, not, Option, none, some, ◌⊎◌, inl, inr}
use sandcube.Exec.{message, refuse_if, Exec, ◌>>◌}
use sandcube.Startup.Checks.{Checks, checks_lem}
use sandcube.Exec.Rules.{Preserves, Preserves-pure}
use sandcube.Calls.{Call, Sys, call, fresh, Follows, same_call}
use sandcube.Calls.Laws.{call_rules, Follows-bind_after}
use sandcube.Runtime.Lifecycle.Steps.{Ordered, Holding}
use sandcube.Startup.{
  Flags, Platform, is_valid_namespace, lock_socket, lock_namespace, clear_socket, check_host,
  open_socket, serve_if, run_adapter,
}
use sandcube.Startup.Parts.{
  is_early, late_rules, other_recover, lock_socket_keeps, lock_namespace_keeps, clear_socket_keeps,
  check_host_keeps, clear_socket_after, check_host_after, lock_namespace_after, open_socket_after,
  lock_socket-done, lock_namespace-done, check_host-done, clear_socket-remove, open_socket-serve,
  open_socket-protect,
}

module _ {W : Type 0} (platform : Platform W) (recover : Exec (Sys W) (Unit {0}))
    (reconcile : Exec (Sys W) (Option ℕ)) where
  abbrev Orders : Call → Call → Type 0
  Orders c d = (f : Flags) → Preserves (Ordered c d) (run_adapter platform recover reconcile f)

  serve_if_after :
      (c d : Call) (f : Flags) (o : Option ℕ)
      → Preserves (Holding c d) (serve_if platform recover reconcile f o)
  unfolding serve_if
  serve_if_after c d f none = Preserves-pure none
  serve_if_after c d f (some n) = open_socket_after platform c d f

  ruleset after_rules =
      (call_rules, serve_if_after, lock_namespace_after, clear_socket_after, check_host_after)

  recover-lock_socket : Orders Call.recover Call.lock_socket
  unfolding run_adapter
  recover-lock_socket f =
      Follows-bind_after Call.recover Call.lock_socket _ _ (lock_socket-done platform f)
        (lock_socket_keeps platform Call.recover Call.lock_socket other_recover f)
        (λ _. search after_rules depth 12)

  -- What stands before the lock of the namespace.
  first_keeps :
      (c d : Call)
      → ((e : Call) → is_early e ≡ true → same_call c e ≡ false)
      → {A : Type 0} (m : Exec (Sys W) A) → Preserves (Ordered c d) m
      → (f : Flags)
      → Preserves (Ordered c d) (
          lock_socket platform f
          >> (call Call.stat_config (platform.stat f.config_path)
              >> (refuse_if (not (is_valid_namespace f.namespace)) (message "invalid namespace")
                  >> m)))
  first_keeps c d other m k f = search (call_rules, lock_socket_keeps, other) depth 9

  recover-lock_namespace : Orders Call.recover Call.lock_namespace
  unfolding run_adapter
  recover-lock_namespace f =
      first_keeps Call.recover Call.lock_namespace other_recover _
        (Follows-bind_after Call.recover Call.lock_namespace _ _ (lock_namespace-done platform f)
          (lock_namespace_keeps platform Call.recover Call.lock_namespace other_recover f)
          (λ _. search after_rules depth 12))
        f

  ruleset keeping_rules = (
    after_rules, late_rules, lock_socket_keeps, lock_namespace_keeps, clear_socket_keeps,
    check_host_keeps,
  )

  reconcile-recover : Orders Call.reconcile Call.recover
  unfolding run_adapter
  reconcile-recover f = search keeping_rules depth 14

  listen-reconcile : Orders Call.listen Call.reconcile
  unfolding run_adapter
  listen-reconcile f = search keeping_rules depth 14

  -- What stands before the checks of the host.
  second_keeps :
      (c d : Call)
      → ((e : Call) → is_early e ≡ true → same_call c e ≡ false)
      → {A : Type 0} (m : Exec (Sys W) A) → Preserves (Ordered c d) m
      → (f : Flags)
      → Preserves (Ordered c d) (
          lock_namespace platform f
          >> (call Call.connect_containerd (platform.connect f.containerd)
              >> (clear_socket platform f >> m)))
  second_keeps c d other m k f =
      search (call_rules, lock_namespace_keeps, clear_socket_keeps, other) depth 9

  recover-check_host :
      (d : Call) → (d ≡ Call.check_cgroups) ⊎ (d ≡ Call.read_forwarding) → Orders Call.recover d
  unfolding run_adapter
  recover-check_host d which f =
      first_keeps Call.recover d other_recover _
        (second_keeps Call.recover d other_recover _
          (Follows-bind_after Call.recover d _ _ (check_host-done platform d which)
            (check_host_keeps platform Call.recover d other_recover)
            (λ _. search after_rules depth 12))
          f)
        f

  serve_if-serve :
      (f : Flags) (o : Option ℕ)
      → Preserves (Ordered Call.serve Call.protect_socket) (serve_if platform recover reconcile f o)
  unfolding serve_if
  serve_if-serve f none = Preserves-pure none
  serve_if-serve f (some n) = open_socket-serve platform f

  serve_if-protect :
      (f : Flags) (o : Option ℕ)
      → Preserves
          (Ordered Call.protect_socket Call.listen)
          (serve_if platform recover reconcile f o)
  unfolding serve_if
  serve_if-protect f none = Preserves-pure none
  serve_if-protect f (some n) = open_socket-protect platform f

  serve-protect : Orders Call.serve Call.protect_socket
  unfolding run_adapter
  serve-protect f = search (keeping_rules, serve_if-serve) depth 14

  protect-listen : Orders Call.protect_socket Call.listen
  unfolding run_adapter
  protect-listen f = search (keeping_rules, serve_if-protect) depth 14

  -- Removing the old socket is no call of the other parts.
  module _ (d : Call) where
    lock_socket-remove :
        (f : Flags) → Preserves (Ordered Call.remove_socket d) (lock_socket platform f)
    unfolding lock_socket
    lock_socket-remove f = search call_rules depth 9

    lock_namespace-remove :
        (f : Flags) → Preserves (Ordered Call.remove_socket d) (lock_namespace platform f)
    unfolding lock_namespace
    lock_namespace-remove f = search call_rules depth 9

    check_host-remove : Preserves (Ordered Call.remove_socket d) (check_host platform)
    unfolding check_host
    check_host-remove = search call_rules depth 9

    serve_if-remove :
        (f : Flags) (o : Option ℕ)
        → Preserves (Ordered Call.remove_socket d) (serve_if platform recover reconcile f o)
    unfolding serve_if open_socket
    serve_if-remove f none = Preserves-pure none
    serve_if-remove f (some n) = search call_rules depth 9

  remove-lock_socket : Orders Call.remove_socket Call.lock_socket
  unfolding run_adapter
  remove-lock_socket f =
      Follows-bind_after Call.remove_socket Call.lock_socket _ _ (lock_socket-done platform f)
        (lock_socket-remove Call.lock_socket f) (λ _. search after_rules depth 12)

  remove-dial : Orders Call.remove_socket Call.dial_socket
  unfolding run_adapter
  remove-dial f =
      search
        (
          call_rules, lock_socket-remove, lock_namespace-remove, check_host-remove, serve_if-remove,
          clear_socket-remove,
        )
        depth 14

  -- The adapter starts in a safe order, whatever the host answers: it recovers the processes only
  -- after it has taken the lock of the socket and that of the namespace, and the checks for cgroup v2
  -- and for IPv4 forwarding have succeeded; it reconciles only after it has recovered, listens only
  -- after it has reconciled, and serves only after the step that protects the socket has succeeded;
  -- and it removes a socket that is left over only after it has taken the lock of the socket and the
  -- check that nobody answers has succeeded. In every state: that check succeeds only where a dial
  -- fails; the check for cgroup v2 only where the host says that it is there; that for forwarding only
  -- where the host's answer is 1, blanks aside; and the step that protects the socket only where its
  -- mode has been set to 0600.
  pub run_adapter_order :
      (f : Flags) (w : W)
      → let calls = (run_adapter platform recover reconcile f (fresh w)).1.calls in
        Follows Call.recover Call.lock_socket calls
        × Follows Call.recover Call.lock_namespace calls
        × Follows Call.recover Call.check_cgroups calls
        × Follows Call.recover Call.read_forwarding calls
        × Follows Call.reconcile Call.recover calls
        × Follows Call.listen Call.reconcile calls
        × Follows Call.protect_socket Call.listen calls
        × Follows Call.serve Call.protect_socket calls
        × Follows Call.remove_socket Call.lock_socket calls
        × Follows Call.remove_socket Call.dial_socket calls
        × ((v : W) → Checks platform v)
  run_adapter_order f w = (
    (recover-lock_socket f).from _ tt,
    (recover-lock_namespace f).from _ tt,
    (recover-check_host Call.check_cgroups (inl refl) f).from _ tt,
    (recover-check_host Call.read_forwarding (inr refl) f).from _ tt,
    (reconcile-recover f).from _ tt,
    (listen-reconcile f).from _ tt,
    (protect-listen f).from _ tt,
    (serve-protect f).from _ tt,
    (remove-lock_socket f).from _ tt,
    (remove-dial f).from _ tt,
    checks_lem platform,
  )
