-- ===== src/Tests/Disks.antt =====
-- Kernels and image stores in memory that behave as the documentation of the real ones says.
use sandcube.Prelude.{
  ℕ, zero, suc, ◌-◌, min, String, str_eq, ◌≡◌, refl, ap, Bool, true, false, not, ◌&&◌, Option, none,
  some, List, [], ◌∷◌, ◌==◌, arith, if◌then◌else◌,
}
use sandcube.Prelude.Int.{pos}
use sandcube.Exec.{Result, ok, err, Exec, sentinel, not_exist, not_found}
use sandcube.Paths.{Bytes, bytes, same}
use sandcube.Runtime.Engine.{Mount}
use sandcube.Runtime.Types.{runtime_name}
use sandcube.Quota.Kernel.{Kernel, DiskQuota, MountInfo, QuotaRecord, Wake}
use sandcube.Quota.Enforce.Laws.{View, IsReadable}
use sandcube.Quota.Journal.Laws.{IsTimed}
use sandcube.Quota.Journal.Safety.{IsGuarded}
use sandcube.Images.{Store, Image}
use sandcube.Images.Laws.{IsNamed}

-- A call that gives this and changes nothing.
abbrev pub give : {W A : Type 0} → A → Exec W A
give a w = (ok a, w)

-- The mounts of a sandbox whose snapshot is 7, and the table of mounts.
abbrev pub overlay_mount : Mount
overlay_mount = record {
  kind = "overlay";
  options = "workdir=/snap/7/work" ∷ "upperdir=/snap/7/fs" ∷ [];
}

abbrev pub overlay : List Mount
overlay = overlay_mount ∷ []

abbrev pub mount_table : List MountInfo
mount_table =
    record {
      mountpoint = bytes "/";
      vfs_options = bytes "rw";
      options = bytes "rw";
      source = bytes "/dev/root";
    }
    ∷ record {
      mountpoint = bytes "/snap";
      vfs_options = bytes "rw,prjquota";
      options = bytes "rw";
      source = bytes "/dev/snap";
    }
    ∷ []

abbrev pub unlimited : DiskQuota
unlimited = record {
  block_hard = 0;
  block_soft = 0;
  inode_hard = 0;
  inode_soft = 0;
  blocks = 0;
  inodes = 0;
}

abbrev pub record_7 : QuotaRecord
record_7 = record { id = "sbx_a"; parent = bytes "/snap/7"; project = 7; disk_mb = pos 64 }

-- The state of quotas and attributes, and the directory that is open.
pub record Volume : Type 0 where
  pub view : View
  pub current : Bytes

abbrev pub empty_volume : Volume
empty_volume = record {
  view = record {
    limits = λ device project. unlimited;
    attributes = λ path. record { flags = 0; project = 0 };
  };
  current = [];
}

abbrev pub volume : Kernel Volume
volume = record {
  is_xfs = λ path. give true;
  mounts = give mount_table;
  get_quota = λ device project w. (ok (w.view.limits device project), w);
  set_limits = λ device project q w. (
    ok tt,
    record w {
      view = record w.view {
        limits = λ d p. if same d device && p == project then q else w.view.limits d p;
      };
    },
  );
  open_directory = λ path w. (ok 3, record w { current = path });
  get_attributes = λ fd w. (ok (w.view.attributes w.current), w);
  set_attributes = λ fd a w. (
    ok tt,
    record w {
      view = record w.view {
        attributes = λ p. if same p w.current then a else w.view.attributes p;
      };
    },
  );
  close = λ fd. give tt;
  stat = λ path. give tt;
  cleanup = give tt;
  wait = λ w. (Wake.deadline, w);
  make_journal_directory = give tt;
  write_journal = λ id r. give tt;
  read_journal = λ id. give [];
  decode_journal = λ raw. ok record_7;
  remove_journal = λ id. give tt;
  load_size = λ id. give (some (pos 64));
  load_mounts = λ id. give overlay;
  list_journals = give [];
  load_container = λ id. give tt;
  stat_snapshot = λ id. give tt;
}

-- What an answer says.
pub told : {A : Type 0} (a b : A) → ok a ≡ ok b → b ≡ a
told a b h = ground (arith, h)

abbrev pub volume-IsReadable : IsReadable volume
volume-IsReadable = record {
  view = λ w. w.view;
  opened = λ w fd. w.current;
  get_quota_lem = λ w device project q got. told _ _ got;
  open_directory_lem = λ w path fd got. refl;
  get_attributes_lem = λ w fd a got. told _ _ got;
  view-get_quota = λ w device project. refl;
  view-open = λ w path. refl;
  view-get_attributes = λ w fd. refl;
  view-close = λ w fd. refl;
}

-- A disk with one sandbox on it: whether its data is there, whether it is limited, and the ticks.
pub record Disk : Type 0 where
  pub data_there : Bool
  pub limited : Bool
  pub ticks : ℕ

abbrev pub absent_unless : Bool → Result (Unit {0})
absent_unless true = ok tt
absent_unless false = err (sentinel not_exist "no such file or directory")

abbrev pub usage_of : Disk → ℕ
usage_of w = if w.data_there then 8 else 0

abbrev pub next_wake : ℕ → Wake
next_wake zero = Wake.deadline
next_wake (suc n) = Wake.tick

-- The data goes away with the last tick but one.
abbrev pub disk : Kernel Disk
disk = record {
  is_xfs = λ path. give true;
  mounts = give mount_table;
  get_quota =
      λ device project w. (ok (record unlimited { blocks = usage_of w; inodes = usage_of w }), w);
  set_limits = λ device project q w. (ok tt, record w { limited = not (q.block_hard == 0) });
  open_directory = λ path. give 3;
  get_attributes = λ fd. give (record { flags = 512; project = 7 });
  set_attributes = λ fd a. give tt;
  close = λ fd. give tt;
  stat = λ path w. (absent_unless w.data_there, w);
  cleanup = give tt;
  wait = λ w. (
    next_wake w.ticks,
    record w {
      data_there = not (min w.ticks 200 == 1) && w.data_there;
      ticks = min w.ticks 200 - 1;
    },
  );
  make_journal_directory = give tt;
  write_journal = λ id r. give tt;
  read_journal = λ id. give [];
  decode_journal = λ raw. ok record_7;
  remove_journal = λ id. give tt;
  load_size = λ id. give (some (pos 64));
  load_mounts = λ id. give overlay;
  list_journals = give [];
  load_container = λ id. give tt;
  stat_snapshot = λ id. give tt;
}

abbrev pub used_disk : Disk
used_disk = record { data_there = true; limited = true; ticks = 5 }

pub tick_left : (n : ℕ) → next_wake n ≡ Wake.tick → suc (min n 200 - 1) ≡ min n 200
tick_left zero h = absurd (ground (arith, h))
tick_left (suc n) h = omega arith

abbrev pub disk-IsTimed : IsTimed disk
disk-IsTimed = record {
  left = λ w. min w.ticks 200;
  most = 200;
  left-most = λ w. omega arith;
  left-wait = λ w woken. omega (arith, tick_left w.ticks woken);
  left-stat = λ w path. omega arith;
  left-get_quota = λ w device project. omega arith;
}

-- Data is limited.
abbrev pub IsLimited : Disk → Type 0
IsLimited w = w.data_there ≡ true → w.limited ≡ true

pub still_there : (b c : Bool) → not b && c ≡ true → c ≡ true
still_there b c h = ground (arith, h)

pub gone_there : (b : Bool) → b ≡ false → b ≡ true → ⊥
gone_there b h g = ground (arith, h, g)

pub absent_lem : (b : Bool) → sandcube.Quota.Journal.is_absent (absent_unless b) ≡ true → b ≡ false
absent_lem true h = ground (arith, h)
absent_lem false h = refl

abbrev pub disk-IsGuarded : IsGuarded disk IsLimited
disk-IsGuarded = record {
  holdings = λ w. record {
    exists = λ path. w.data_there;
    blocks = λ device project. usage_of w;
    inodes = λ device project. usage_of w;
  };
  stat_lem = λ w path h. absent_lem w.data_there h;
  get_quota_lem = λ w device project q got.
      (ap (λ r. r.blocks) (told _ _ got), ap (λ r. r.inodes) (told _ _ got));
  holdings-stat = λ w path. refl;
  holdings-get_quota = λ w device project. refl;
  is_xfs-Safe = λ path. record { from = λ w h. h };
  mounts-Safe = record { from = λ w h. h };
  stat-Safe = λ path. record { from = λ w h. h };
  get_quota-Safe = λ device project. record { from = λ w h. h };
  cleanup-Safe = record { from = λ w h. h };
  wait-Safe = λ w h there. h (still_there (min w.ticks 200 == 1) w.data_there there);
  read_journal-Safe = λ id. record { from = λ w h. h };
  remove_journal-Safe = λ id. record { from = λ w h. h };
  clear-Safe =
      λ w device id rec journal h unused there. absurd (gone_there w.data_there unused.0 there);
}

-- Images by their names.
abbrev image_reply : Option String → String → Result Image
image_reply none ref = err (sentinel not_found "not found")
image_reply (some d) ref = ok (record { name = ref; digest = d; labels = λ l. "true" })

abbrev pub shelf : Store (String → Option String)
shelf = record {
  build_root = bytes "/build";
  resolve = λ path. give path;
  open_archive = λ path. give 3;
  is_regular = λ f. give true;
  close_archive = λ f. give tt;
  get_image = λ ref w. (image_reply (w ref) ref, w);
  unpack_image = λ ref. give tt;
  lease = give tt;
  release_lease = give tt;
  import_archive = λ f ref w. (ok tt, λ n. if str_eq n ref then some "sha256:new" else w n);
  delete_image = λ ref w. (ok tt, λ n. if str_eq n ref then none else w n);
  list_containers = give [];
  container_info = λ id. give (record {
    labels = λ l. "true";
    runtime = runtime_name;
    snapshot_key = id;
    snapshotter = "overlayfs";
    image = "img";
  });
}

pub reply_lem :
    (o : Option String) (ref d : String) (e : sandcube.Exec.Err)
    → o ≡ some d
    → image_reply o ref ≡ err e
    → e.is not_found ≡ false
reply_lem none ref d e h g = ground (arith, h)
reply_lem (some c) ref d e h g = ground (arith, g)

abbrev pub shelf-IsNamed : IsNamed shelf
shelf-IsNamed = record {
  images = λ w. w;
  get_lem = λ w ref d e h g. reply_lem (w ref) ref d e h g;
  images-get = λ w ref. refl;
  images-unpack = λ w ref. refl;
  images-resolve = λ w path. refl;
  images-open = λ w path. refl;
  images-regular = λ w f. refl;
  images-close = λ w f. refl;
  images-lease = λ w. refl;
  images-release = λ w. refl;
  images-import = λ w f ref other h. rw h refl;
  images-delete = λ w ref other h. rw h refl;
}
