-- ===== src/Files/Open/Laws.antt =====
-- Where a request is carried out, and after what.
use sandcube.Prelude.{ℕ, String, str_eq, ◌≡◌, Bool, true, List, any, All}
use sandcube.Exec.{Exec, OnOk}
use sandcube.Exec.Rules.{Preserves}
use sandcube.Exec.Leads.{Leads}
use sandcube.Calls.{Sys}
use sandcube.Paths.{Bytes}
use sandcube.Runtime.Engine.{Engine, Services, Mount}
use sandcube.Files.Host.{Host}
use sandcube.Files.Access.{FileRequest, file_at}
use sandcube.Files.Open.{Roots, in_mount}

abbrev has_option : String → Mount → Bool
has_option o m = any (λ p. str_eq p o) m.options

-- No device nodes, no set-user-ID programs and no programs at all beneath it.
abbrev pub IsHardened : Mount → Type 0
IsHardened m =
    (has_option "nodev" m ≡ true) × (has_option "nosuid" m ≡ true) × (has_option "noexec" m ≡ true)

-- `Safe` is kept by a request that is carried out in an overlay, or beneath mounts that are hardened,
-- in a world where the quota of the sandbox has been checked, which only the check for this sandbox
-- brings about; and by all that prepares this. What a descriptor stands for is told by Fstatfs for
-- the moment.
pub record IsConfined {W : Type 0} (engine : Engine W) (services : Services W) (host : Host W)
    (roots : Roots W) (id : String) (Safe : W → Type 0) : Type 1 where
  pub Checked : W → Type 0
  pub is_overlay : W → ℕ → Bool
  pub overlay_lem :
      (w : W) (fd : ℕ)
      → OnOk (λ b. b ≡ is_overlay (roots.is_overlay fd w).1 fd) (roots.is_overlay fd w).0
  pub load-Safe : Preserves Safe (engine.load_container id)
  pub info-Safe : Preserves Safe (engine.container_info id)
  pub quota_lem :
      (w : W)
      → Safe w
      → let (r, w') = services.check_quota id w in Safe w' × OnOk (λ _. Checked w') r
  pub task-Ready : Preserves (λ w. Safe w × Checked w) (engine.find_task id)
  pub info-Ready : Preserves (λ w. Safe w × Checked w) (engine.container_info id)
  pub mounts-Ready :
      (s k : String) → Preserves (λ w. Safe w × Checked w) (engine.snapshot_mounts s k)
  pub open-Ready : (path : Bytes) → Preserves (λ w. Safe w × Checked w) (roots.open_directory path)
  pub overlay-Ready : (fd : ℕ) → Preserves (λ w. Safe w × Checked w) (roots.is_overlay fd)
  pub close-Safe : (fd : ℕ) → Preserves Safe (host.close fd)
  pub file-Safe :
      (w : W) (fd : ℕ) (req : FileRequest)
      → Safe w
      → Checked w
      → is_overlay w fd ≡ true
      → Safe (file_at host fd req w).1
  pub mount-Safe :
      (w : W) (ms : List Mount) (req : FileRequest)
      → Safe w
      → Checked w
      → All IsHardened ms
      → Safe (roots.with_temp_mount ms (in_mount engine services host roots req) w).1

module _ {W : Type 0} {engine : Engine W} {services : Services W} {host : Host W} {roots : Roots W}
    {id : String} {Safe : W → Type 0}
    (confined : IsConfined engine services host roots id Safe) where
  abbrev Ready : W → Type 0
  Ready w = Safe w × confined.Checked w

  abbrev Kept : Sys W → Type 0
  Kept s = Safe s.world

  abbrev Prepared : Sys W → Type 0
  Prepared s = Ready s.world
