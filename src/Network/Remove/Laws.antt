-- ===== src/Network/Remove/Laws.antt =====
-- The calls of a removal, and what its success means.
use sandcube.Prelude.{String, ◌≡◌, ◌⊎◌, inl, inr, Bool, true, false}
use sandcube.Exec.{Exec}
use sandcube.Exec.Rules.{Preserves, Achieves, achieves_rules}
use sandcube.Exec.Outcomes.{Ends, Ends-Preserves, ends_rules}
use sandcube.Calls.{Call, Sys, done, any_call, Follows, same_call}
use sandcube.Calls.Laws.{call_rules, Achieves-call}
use sandcube.Network.Host.{Host, NetworkRecord}
use sandcube.Network.Remove.{
  clear_conntrack, delete_named_link, delete_named_table, remove_namespace, tear_down,
  remove_network_locked, remove_network,
}

abbrev pub Ordered : {W : Type 0} → Call → Call → Sys W → Type 0
Ordered c d s = Follows c d s.calls

-- The calls of the removal.
abbrev pub is_removal : Call → Bool
is_removal Call.lock_network = true
is_removal Call.read_journal = true
is_removal Call.list_links = true
is_removal Call.delete_link = true
is_removal Call.stat_namespace = true
is_removal Call.delete_namespace = true
is_removal Call.run_conntrack = true
is_removal Call.list_tables = true
is_removal Call.delete_table = true
is_removal Call.remove_directory = true
is_removal Call.remove_journal = true
is_removal _ = false

-- The calls that take something of the network away.
abbrev pub takes_down : Call → Bool
takes_down Call.delete_link = true
takes_down Call.delete_namespace = true
takes_down Call.delete_table = true
takes_down Call.remove_directory = true
takes_down Call.remove_journal = true
takes_down _ = false

module _ {W : Type 0} (host : Host W) where
  -- Other calls are not made, so an order of theirs is kept.
  module _ (c d : Call) (other : (e : Call) → is_removal e ≡ true → same_call c e ≡ false) where
    pub remove_keeps : (id : String) → Preserves (Ordered c d) (remove_network_locked host id)
    unfolding remove_network_locked tear_down delete_named_link remove_namespace clear_conntrack
        delete_named_table
    remove_keeps id = search call_rules depth 20

  tear_down-done :
      (id : String) (n : NetworkRecord)
      → Achieves (λ (s : Sys W). done Call.remove_journal s.calls ≡ true) (tear_down host id n)
  unfolding tear_down
  tear_down-done id n = search (achieves_rules, Achieves-call) depth 20

  abbrev Untouched : Sys W → Type 0
  Untouched s = any_call takes_down s.calls ≡ false

  abbrev Settled : Bool → Sys W → Type 0
  Settled b s = b ≡ true → Untouched s ⊎ (done Call.remove_journal s.calls ≡ true)

  Ends-Achieves :
      {A : Type 0} (m : Exec (Sys W) A)
      → Achieves (λ (s : Sys W). done Call.remove_journal s.calls ≡ true) m
      → Ends Untouched Settled m
  Ends-Achieves m h = record { from = λ s p e. inr (h.from s e) }

  Untouched-Settled : (b : Bool) (s : Sys W) → Untouched s → Settled b s
  Untouched-Settled b s p = λ e. inl p

  pub remove-Settled : (id : String) → Ends Untouched Settled (remove_network host id)
  unfolding remove_network remove_network_locked
  remove-Settled id =
      search
        (
          ends_rules, Ends-Achieves, Ends-Preserves, Untouched-Settled, tear_down-done,
          achieves_rules, call_rules,
        )
        depth 12
