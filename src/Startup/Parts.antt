-- ===== src/Startup/Parts.antt =====
-- What the parts of the start do to the order of calls.
use sandcube.Prelude.{◌≡◌, Bool, true, false, arith, ◌⊎◌, inl, inr}
use sandcube.Exec.Rules.{
  Preserves, Achieves, Preserves-pure, Achieves-bind, Achieves-bind_first, Achieves-catch,
  Achieves-raise,
}
use sandcube.Calls.{Call, Sys, done, same_call}
use sandcube.Calls.Laws.{call_rules, Achieves-call}
use sandcube.Runtime.Lifecycle.Steps.{Ordered, Holding}
use sandcube.Startup.{
  Flags, Platform, lock_socket, lock_namespace, remove_stale, clear_socket, check_host, open_socket,
}

-- The calls before the adapter recovers.
abbrev pub is_early : Call → Bool
is_early Call.open_lock = true
is_early Call.lock_socket = true
is_early Call.lock_namespace = true
is_early Call.stat_config = true
is_early Call.connect_containerd = true
is_early Call.stat_socket = true
is_early Call.dial_socket = true
is_early Call.remove_socket = true
is_early Call.check_cgroups = true
is_early Call.read_forwarding = true
is_early Call.find_tool = true
is_early _ = false

pub other_recover : (e : Call) → is_early e ≡ true → same_call Call.recover e ≡ false
other_recover e h = ground arith

pub other_reconcile : (e : Call) → is_early e ≡ true → same_call Call.reconcile e ≡ false
other_reconcile e h = ground arith

pub other_listen : (e : Call) → is_early e ≡ true → same_call Call.listen e ≡ false
other_listen e h = ground arith

pub other_protect_socket : (e : Call) → is_early e ≡ true → same_call Call.protect_socket e ≡ false
other_protect_socket e h = ground arith

pub other_serve : (e : Call) → is_early e ≡ true → same_call Call.serve e ≡ false
other_serve e h = ground arith

pub ruleset late_rules =
    (other_recover, other_reconcile, other_listen, other_protect_socket, other_serve)

module _ {W : Type 0} (platform : Platform W) where
  module _ (c d : Call) (other : (e : Call) → is_early e ≡ true → same_call c e ≡ false) where
    pub lock_socket_keeps : (f : Flags) → Preserves (Ordered c d) (lock_socket platform f)
    unfolding lock_socket
    lock_socket_keeps f = search call_rules depth 9

    pub lock_namespace_keeps : (f : Flags) → Preserves (Ordered c d) (lock_namespace platform f)
    unfolding lock_namespace
    lock_namespace_keeps f = search call_rules depth 9

    pub clear_socket_keeps : (f : Flags) → Preserves (Ordered c d) (clear_socket platform f)
    unfolding clear_socket remove_stale
    clear_socket_keeps f = search call_rules depth 9

    pub check_host_keeps : Preserves (Ordered c d) (check_host platform)
    unfolding check_host
    check_host_keeps = search call_rules depth 9

  module _ (c d : Call) where
    pub clear_socket_after : (f : Flags) → Preserves (Holding c d) (clear_socket platform f)
    unfolding clear_socket remove_stale
    clear_socket_after f = search call_rules depth 9

    pub check_host_after : Preserves (Holding c d) (check_host platform)
    unfolding check_host
    check_host_after = search call_rules depth 9

    pub lock_namespace_after : (f : Flags) → Preserves (Holding c d) (lock_namespace platform f)
    unfolding lock_namespace
    lock_namespace_after f = search call_rules depth 9

    pub open_socket_after : (f : Flags) → Preserves (Holding c d) (open_socket platform f)
    unfolding open_socket
    open_socket_after f = search call_rules depth 9

  pub lock_socket-done :
      (f : Flags)
      → Achieves (λ (s : Sys W). done Call.lock_socket s.calls ≡ true) (lock_socket platform f)
  unfolding lock_socket
  lock_socket-done f = Achieves-bind _ _ λ fd.
      Achieves-catch _ _ _ (Achieves-call _ _) (λ _. Preserves-pure tt) (λ e. Achieves-raise _)

  pub lock_namespace-done :
      (f : Flags)
      → Achieves
          (λ (s : Sys W). done Call.lock_namespace s.calls ≡ true)
          (lock_namespace platform f)
  unfolding lock_namespace
  lock_namespace-done f = Achieves-bind _ _ λ fd.
      Achieves-catch _ _ _ (Achieves-call _ _) (λ _. Preserves-pure tt) (λ e. Achieves-raise _)

  pub check_host-done :
      (c : Call)
      → (c ≡ Call.check_cgroups) ⊎ (c ≡ Call.read_forwarding)
      → Achieves (λ (s : Sys W). done c s.calls ≡ true) (check_host platform)
  unfolding check_host
  check_host-done c (inl e) =
      rw e (Achieves-bind_first _ _ (Achieves-call _ _) (λ _. search call_rules depth 9))
  check_host-done c (inr e) = rw e (
      Achieves-bind _ _
        λ _. Achieves-bind_first _ _ (Achieves-call _ _) (λ _. search call_rules depth 9))

  -- The old socket goes once nobody has answered it.
  pub clear_socket-remove :
      (f : Flags)
      → Preserves (Ordered Call.remove_socket Call.dial_socket) (clear_socket platform f)
  unfolding clear_socket remove_stale
  clear_socket-remove f = search call_rules depth 9

  pub open_socket-serve :
      (f : Flags) → Preserves (Ordered Call.serve Call.protect_socket) (open_socket platform f)
  unfolding open_socket
  open_socket-serve f = search call_rules depth 9

  pub open_socket-protect :
      (f : Flags) → Preserves (Ordered Call.protect_socket Call.listen) (open_socket platform f)
  unfolding open_socket
  open_socket-protect f = search call_rules depth 9
