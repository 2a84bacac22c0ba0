-- ===== src/Startup/Checks.antt =====
-- What the checks of the start have been told where they succeed.
use sandcube.Prelude.{◌≡◌, refl, Bool, true, false, not}
use sandcube.Exec.{
  Err, Exec, Result, ok, err, succeeded, OnOk, OnOk-map, message, refuse_if, handle, raise, skip,
  pure, attempt, ignoring, ◌>>=◌, ◌>>◌,
}
use sandcube.Paths.{Bytes, bytes, same, same_iff}
use sandcube.Startup.{
  Platform, trim_space, refuse_live, require_cgroup2, require_forwarding, protect,
}

-- The answer of the host for IPv4 forwarding, blanks aside.
abbrev pub IsEnabled : Result Bytes → Type 0
IsEnabled (ok raw) = trim_space raw ≡ bytes "1"
IsEnabled (err e) = ⊥

refused_lem :
    {W : Type 0} (b : Bool) (e : Err) (w : W) → OnOk (λ _. b ≡ true) (refuse_if (not b) e w).0
unfolding refuse_if
refused_lem true e w = refl
refused_lem false e w = tt

module _ {W : Type 0} where
  silent :
      (r : Result (Unit {0})) (w : W)
      → OnOk
          (λ _. succeeded r ≡ false)
          (handle (λ _. raise {A = Unit {0}} (message "socket is live")) (λ _. skip) r w).0
  unfolding handle raise pure
  silent (ok a) w = tt
  silent (err e) w = refl

  found :
      (r : Result Bool) (w : W)
      → OnOk
          (λ _. r ≡ ok true)
          (handle
            (λ b. refuse_if (not b) (message "cgroup v2 is required"))
            (λ _. raise (message "cgroup v2 is required"))
            r
            w).0
  unfolding handle raise refuse_if
  found (ok true) w = refl
  found (ok false) w = tt
  found (err e) w = tt

  enabled :
      (r : Result Bytes) (w : W)
      → OnOk
          (λ _. IsEnabled r)
          (handle
            (λ raw.
              refuse_if
                (not (same (trim_space raw) (bytes "1")))
                (message "IPv4 forwarding must be enabled"))
            (λ _. raise (message "IPv4 forwarding must be enabled"))
            r
            w).0
  unfolding handle raise
  enabled (ok raw) w =
      OnOk-map (λ _ e. (same_iff (trim_space raw) (bytes "1")).0 e)
        (refuse_if (not (same (trim_space raw) (bytes "1"))) _ w).0
        (refused_lem (same (trim_space raw) (bytes "1")) _ w)
  enabled (err e) w = tt

  protected :
      (close : Exec W (Unit {0})) (r : Result (Unit {0})) (w : W)
      → OnOk
          (λ _. succeeded r ≡ true)
          (handle (λ _. skip) (λ e. ignoring close >> raise {A = Unit {0}} e) r w).0
  unfolding handle raise pure ◌>>=◌ ignoring
  protected close (ok a) w = refl
  protected close (err e) w = tt

module _ {W : Type 0} (platform : Platform W) where
  -- What a check has been told where it succeeds: nobody answers at the path of the socket; the host
  -- has cgroup v2; it forwards IPv4; and the mode of the path is set to 0600.
  abbrev pub Checks : W → Type 0
  Checks w =
      ((path : Bytes)
        → OnOk (λ _. succeeded (platform.dial path w).0 ≡ false) (refuse_live platform path w).0)
      × OnOk (λ _. (platform.is_cgroup2 w).0 ≡ ok true) (require_cgroup2 platform w).0
      × OnOk (λ _. IsEnabled (platform.forwarding w).0) (require_forwarding platform w).0
      × ((path : Bytes)
          → OnOk (λ _. succeeded (platform.chmod path 384 w).0 ≡ true) (protect platform path w).0)

  pub checks_lem : (w : W) → Checks w
  unfolding refuse_live require_cgroup2 require_forwarding protect ◌>>=◌ attempt
  checks_lem w = (
    λ path. silent (platform.dial path w).0 (platform.dial path w).1,
    found (platform.is_cgroup2 w).0 (platform.is_cgroup2 w).1,
    enabled (platform.forwarding w).0 (platform.forwarding w).1,
    λ path.
        protected platform.close_listener (platform.chmod path 384 w).0
          (platform.chmod path 384 w).1,
  )
