-- ===== src/Server/Serve/Guard.antt =====
-- Events of a request in which every operation runs under its lock and on arguments that have been
-- checked, and the rules by which handlers keep them so.
use sandcube.Prelude.{
  ◌≡◌, refl, Bool, true, false, not, ◌&&◌, Option, none, some, List, [], ◌∷◌, arith, if◌then◌else◌,
}
use sandcube.Exec.{Result, ok, err, Exec}
use sandcube.Paths.{Bytes, bytes, same, same_iff}
use sandcube.Server.Limits.{
  is_valid_id, is_managed_reference, is_rejected_config, is_rejected_exec, is_rejected_process,
}
use sandcube.Server.Replies.{Code}
use sandcube.Server.Handler.{
  Operation, Key, sandbox_key, lifecycle_key, Event, acquired, released, ran, Serving, Value,
  Handler, refusing, answering, requiring, decoding, locking, acquire, released_by, release,
}

abbrev pub is_key : Bytes → Option Key → Bool
is_key id (some (sandbox_key k)) = same id k
is_key id _ = false

abbrev pub same_key : Key → Option Key → Bool
same_key (sandbox_key id) k = is_key id k
same_key lifecycle_key (some lifecycle_key) = true
same_key lifecycle_key _ = false

abbrev pub is_free : Option Key → Bool
is_free none = true
is_free (some k) = false

-- Under which lock an operation may run, and on which arguments.
abbrev pub may_run : Operation → Option Key → Bool
may_run (Operation.create c) k = is_key (bytes c.id) k && not (is_rejected_config c)
may_run (Operation.inspect id) k = is_key id k && is_valid_id id
may_run (Operation.start id) k = is_key id k && is_valid_id id
may_run (Operation.stop id) k = is_key id k && is_valid_id id
may_run (Operation.delete id) k = is_key id k && is_valid_id id
may_run (Operation.change_file id req) k = is_key id k && is_valid_id id
may_run (Operation.start_process id req) k =
    is_key id k && is_valid_id id && not (is_rejected_process req)
may_run (Operation.list_processes id) k = is_key id k && is_valid_id id
may_run (Operation.show_process id pid) k = is_key id k && is_valid_id id
may_run (Operation.process_logs id pid) k = is_key id k && is_valid_id id
may_run (Operation.kill_process id pid) k = is_key id k && is_valid_id id
may_run (Operation.prepare_exec id req) k =
    is_key id k && is_valid_id id && not (is_rejected_exec req)
may_run (Operation.wait_exec id req) k = is_free k && is_valid_id id && not (is_rejected_exec req)
may_run (Operation.exec id req) k = is_free k && is_valid_id id && not (is_rejected_exec req)
may_run Operation.reconcile k = same_key lifecycle_key k
may_run (Operation.import_image r) k = is_free k && is_managed_reference r.reference
may_run (Operation.inspect_image r) k = is_free k && is_managed_reference r
may_run (Operation.delete_image r) k = is_free k && is_managed_reference r
may_run Operation.health k = is_free k
may_run Operation.metrics k = is_free k
may_run Operation.inventory k = is_free k

-- What is held after these events, newest first.
abbrev pub holder : List Event → Option Key
holder [] = none
holder (acquired k ∷ t) = some k
holder (released k ∷ t) = none
holder (ran op ∷ t) = holder t

-- Nothing is taken twice or given back without being held, and every operation runs as it may.
abbrev pub is_guarded : List Event → Bool
is_guarded [] = true
is_guarded (acquired k ∷ t) = is_free (holder t) && is_guarded t
is_guarded (released k ∷ t) = same_key k (holder t) && is_guarded t
is_guarded (ran op ∷ t) = may_run op (holder t) && is_guarded t

pub same_refl : (s : Bytes) → same s s ≡ true
same_refl s = (same_iff s s).1 refl

same_key_refl : (k : Key) → same_key k (some k) ≡ true
same_key_refl (sandbox_key id) = same_refl id
same_key_refl lifecycle_key = refl

-- The answers of the handlers agree with the events.
abbrev pub Tidy : {W : Type 0} → Serving W → Type 0
Tidy s = (is_guarded s.events ≡ true) × (holder s.events ≡ s.unlock)

-- From a state in which `k` is held, the handler keeps the events tidy, and holds nothing new.
pub record Tidies {W J : Type 0} (k : Option Key) (h : Handler W J) : Type 0 where
  pub from : (s : Serving W) → Tidy s → s.unlock ≡ k → Tidy (h s).1
  pub gives_back : (s : Serving W) → s.unlock ≡ none → (h s).1.unlock ≡ none

module _ {W J : Type 0} {k : Option Key} where
  pub Tidies-refusing : (status : _) (code : Code) → Tidies {W = W} {J = J} k (refusing status code)
  unfolding refusing
  Tidies-refusing status code = record { from = λ s t e. t; gives_back = λ s e. e }

  pub Tidies-answering :
      (status : _) (f : Result J → Result (Value J)) (op : Operation) (m : Exec W J)
      → may_run op k ≡ true
      → Tidies k (answering status f op m)
  unfolding answering
  Tidies-answering status f op m h = record {
    from = λ s t e. ground (arith);
    gives_back = λ s e. e;
  }

  pub Tidies-requiring :
      (b : Bool) (h g : Handler W J) → Tidies k h → Tidies k g → Tidies k (requiring b h g)
  unfolding requiring
  Tidies-requiring true h g u v = u
  Tidies-requiring false h g u v = v

  pub Tidies-if :
      (b : Bool) (h g : Handler W J)
      → (b ≡ true → Tidies k h)
      → (b ≡ false → Tidies k g)
      → Tidies k (if b then h else g)
  Tidies-if true h g u v = u refl
  Tidies-if false h g u v = v refl

  pub Tidies-decoding :
      {A : Type 0} (r : Result A) (h : A → Handler W J)
      → ((a : A) → Tidies k (h a))
      → Tidies k (decoding r h)
  unfolding decoding
  Tidies-decoding (ok a) h u = u a
  Tidies-decoding (err e) h u = Tidies-refusing _ _

released_by-guarded :
    (o : Option Key) (t : List Event)
    → is_guarded t ≡ true
    → holder t ≡ o
    → (is_guarded (released_by o t) ≡ true) × (holder (released_by o t) ≡ none)
released_by-guarded none t g h = (g, h)
released_by-guarded (some k) t g h = (ground (arith, same_key_refl k), refl)

pub release-Tidy : {W : Type 0} (s : Serving W) → Tidy s → Tidy (release s)
release-Tidy s (g, h) = released_by-guarded s.unlock s.events g h

module _ {W J : Type 0} where
  pub Tidies-locking :
      (k : Key) (handler : Handler W J) → Tidies (some k) handler → Tidies none (locking k handler)
  unfolding locking
  Tidies-locking k handler u = record {
    from = λ s (g, h) e.
        release-Tidy (handler (acquire k s)).1 (u.from (acquire k s) (ground arith, refl) refl);
    gives_back = λ s e. refl;
  }

pub ruleset tidy_rules = (
  Tidies-refusing, Tidies-answering, Tidies-requiring, Tidies-if, Tidies-decoding, Tidies-locking,
)
