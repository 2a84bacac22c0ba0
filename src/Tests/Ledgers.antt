-- ===== src/Tests/Ledgers.antt =====
-- A disk that knows the project in the journal of a sandbox, and whether a limit has been set on
-- another one.
use sandcube.Prelude.{
  ℕ, str_eq, ◌≡◌, Bool, true, false, not, ◌||◌, ◌==◌, [], arith, Option, none, some, if◌then◌else◌,
}
use sandcube.Exec.{ok}
use sandcube.Quota.Kernel.{Kernel, Wake}
use sandcube.Quota.Journal.Named.{IsNaming, IsHarmless}
use sandcube.Tests.Disks.{give, mount_table, record_7, overlay, unlimited}
use sandcube.Prelude.Int.{pos}

pub record Ledger : Type 0 where
  pub named : Option ℕ
  pub is_astray : Bool

abbrev is_named : ℕ → Option ℕ → Bool
is_named n none = false
is_named n (some m) = n == m

-- The journal is that of this sandbox.
abbrev pub ledger : Kernel Ledger
ledger = record {
  is_xfs = λ path. give true;
  mounts = give mount_table;
  get_quota = λ device project. give unlimited;
  set_limits = λ device project q w.
      (ok tt, record w { is_astray = w.is_astray || not (is_named project w.named) });
  open_directory = λ path. give 3;
  get_attributes = λ fd. give (record { flags = 512; project = 7 });
  set_attributes = λ fd a. give tt;
  close = λ fd. give tt;
  stat = λ path. give tt;
  cleanup = give tt;
  wait = λ w. (Wake.deadline, w);
  make_journal_directory = give tt;
  write_journal = λ id rec w.
      (ok tt, record w { named = if str_eq rec.id "sbx_a" then some rec.project else w.named });
  read_journal = λ id. give [];
  decode_journal = λ raw. ok record_7;
  remove_journal = λ id. give tt;
  load_size = λ id. give (some (pos 64));
  load_mounts = λ id. give overlay;
  list_journals = give [];
  load_container = λ id. give tt;
  stat_snapshot = λ id. give tt;
}

abbrev pub IsBooked : Ledger → Type 0
IsBooked w = w.is_astray ≡ false

abbrev pub IsNamed : ℕ → Ledger → Type 0
IsNamed project w = is_named project w.named ≡ true

itself : (n : ℕ) → n == n ≡ true
itself n = ground arith

still : {A : Type 0} (a : A) → IsHarmless IsBooked IsNamed (give a)
still a = (record { from = λ w h. h }, λ project. record { from = λ w h. h })

pub ledger-IsNaming : IsNaming ledger "sbx_a" IsNamed IsBooked
ledger-IsNaming = record {
  write-Safe = λ rec. record { from = λ w h. h };
  write_lem = λ w rec h. rw h (itself rec.project);
  limits-Safe = λ w device project want n h. ground (arith, n, h);
  limits_keep = λ device project other want. record { from = λ w h. h };
  xfs_lem = λ path. still true;
  mounts_lem = still mount_table;
  directory_lem = still tt;
  read_lem = λ device project. still unlimited;
  open_lem = λ path. still 3;
  attributes_lem = λ fd. still (record { flags = 512; project = 7 });
  tag_lem = λ fd a. still tt;
  close_lem = λ fd. still tt;
}

abbrev pub blank : Ledger
blank = record { named = none; is_astray = false }
