-- ===== src/Tests/Guards.antt =====
-- The theorems on what `Start`, `Create` and `File` leave alone, at hosts that would be spoilt.
use sandcube.Prelude.{
  String, str_eq, ◌≡◌, refl, ◌⊎◌, Bool, true, false, not, ◌&&◌, ◌||◌, none, some, List, [], ◌∷◌,
  any, all, arith,
}
use sandcube.Exec.{
  Err, Result, ok, err, Exec, sentinel, message, not_found, attempt, handle, lift, refuse_if, ◌>>=◌,
  succeeded,
}
use sandcube.Exec.Rules.{Preserves}
use sandcube.Calls.{call, fresh}
use sandcube.Paths.{bytes}
use sandcube.Runtime.Types.{Config, runtime_name}
use sandcube.Runtime.Engine.{Engine, Services, ContainerInfo, Mount, running}
use sandcube.Runtime.Container.{load}
use sandcube.Runtime.Lifecycle.{start}
use sandcube.Runtime.Lifecycle.Closed.{IsClosing, start_fails_closed}
use sandcube.Runtime.Create.{
  create, create_fresh, refuse_occupied, recover_snapshot, provide_image, new_container,
  build_container, rollback_error,
}
use sandcube.Runtime.Create.Rollback.{IsSnapshotting, SaysRollback, create_settled}
use sandcube.Files.Host.{Host}
use sandcube.Files.Access.{FileRequest}
use sandcube.Files.Open.{Roots}
use sandcube.Tests.Disks.{give}
use sandcube.Tests.Samples.{config}

abbrev gone : Err
gone = sentinel not_found "not found"

abbrev lost : {W A : Type 0} → Exec W A
lost w = (err gone, w)

abbrev info : ContainerInfo
info = record {
  labels = λ l. "true";
  runtime = runtime_name;
  snapshot_key = "sbx_a";
  snapshotter = "overlayfs";
  image = "img";
}

-- A container with no task.
abbrev quiet : {W : Type 0} → Engine W
quiet = record {
  version = give tt;
  load_container = λ id. give tt;
  container_info = λ id. give info;
  delete_container = λ id. give tt;
  get_image = λ r. give tt;
  pull_image = λ r. give tt;
  unpack_image = λ r. give tt;
  stat_snapshot = λ id. lost;
  remove_snapshot = λ key. give tt;
  new_snapshot = λ id image. give tt;
  snapshot_mounts = λ s id. give (record { kind = "overlay"; options = [] } ∷ []);
  commit_container = λ c f o. give tt;
  find_task = λ id. lost;
  task_status = λ id. give running;
  kill_task = λ id. give tt;
  delete_task_record = λ id. give tt;
  close_task_io = λ id. give tt;
  new_task = λ id. give tt;
  start_task = λ id. give tt;
}

abbrev calm : {W : Type 0} → Services W
calm = record {
  history_root = bytes "/h/sandcube";
  network_path = λ id. bytes "/run/netns/scn";
  check_quota = λ id. give tt;
  prepare_quota = λ id c ms. give tt;
  reclaim_quota = λ id. give tt;
  setup_network = λ id. give tt;
  remove_network = λ id. give tt;
  list_processes = λ id. give [];
  process_running = λ w p. false;
  kill_process = λ p. give tt;
  settle_processes = λ id. give tt;
  forget_processes = λ id. give tt;
}

-- Whose quota has been checked, whose network is up, and whether there is a task.
record Plant : Type 0 where
  checked : String
  connected : String
  has_task : Bool

abbrev plant : Engine Plant
plant = record quiet { new_task = λ id w. (ok tt, record w { has_task = true }) }

abbrev plant_services : Services Plant
plant_services = record calm {
  check_quota = λ id w. (ok tt, record w { checked = id });
  setup_network = λ id w. (ok tt, record w { connected = id });
}

abbrev is_ready : Plant → Bool
is_ready w = str_eq w.checked "sbx_a" && str_eq w.connected "sbx_a"

abbrev Ready : Plant → Type 0
Ready w = (not w.has_task || is_ready w) ≡ true

same_plant : {A : Type 0} (r : Result A) → Preserves Ready (λ w. (r, w))
same_plant r = record { from = λ w h. h }

after_check : (w : Plant) → Ready w → Ready (record w { checked = "sbx_a" })
after_check w h = ground (arith, h)

after_setup : (w : Plant) → Ready w → Ready (record w { connected = "sbx_a" })
after_setup w h = ground (arith, h)

after_task :
    (w : Plant) → w.checked ≡ "sbx_a" → w.connected ≡ "sbx_a" → Ready (record w { has_task = true })
after_task w c n = rw (c, n) refl

plant-IsClosing : IsClosing plant plant_services "sbx_a" Ready
plant-IsClosing = record {
  Checked = λ w. w.checked ≡ "sbx_a";
  Connected = λ w. w.connected ≡ "sbx_a";
  check_lem = λ w h. (after_check w h, refl);
  setup_lem = λ w h c. (after_setup w h, (c, refl));
  new_task-Safe = λ w h c n. after_task w c n;
  start_task-Safe = same_plant _;
  load-Safe = same_plant _;
  info-Safe = same_plant _;
  find-Safe = same_plant _;
  status-Safe = same_plant _;
  kill-Safe = same_plant _;
  delete-Safe = same_plant _;
  close-Safe = same_plant _;
}

abbrev empty_plant : Plant
empty_plant = record { checked = ""; connected = ""; has_task = false }

start_fails_closed_example : Ready (start plant plant_services "sbx_a" (fresh empty_plant)).1.world
start_fails_closed_example = start_fails_closed plant-IsClosing empty_plant refl

-- Whether the snapshot is there. The quota cannot be prepared.
abbrev maker : Engine Bool
maker = record quiet {
  load_container = λ id. lost;
  new_snapshot = λ id image w. (ok tt, true);
  remove_snapshot = λ key w. (ok tt, false);
}

abbrev no_quota : Err
no_quota = message "no quota"

abbrev maker_services : Services Bool
maker_services = record calm { prepare_quota = λ id c ms w. (err no_quota, w) }

same_maker : {A : Type 0} (r : Result A) → Preserves (λ w. w ≡ false) (λ w. (r, w))
same_maker r = record { from = λ w h. h }

not_failed : {W : Type 0} (w : W) {X : Type 0} → succeeded {A = Unit {0}} (ok tt) ≡ false → X
not_failed w h = absurd (ground (arith, h))

abbrev maker-IsSnapshotting : IsSnapshotting maker maker_services "sbx_a"
maker-IsSnapshotting = record {
  is_there = λ w. w;
  remove_lem = λ w. refl;
  new_fails = λ w image h failed. not_failed w failed;
  remove-Absent = record { from = λ w h. refl };
  load-Absent = same_maker _;
  info-Absent = same_maker _;
  find-Absent = same_maker _;
  status-Absent = same_maker _;
  stat-Absent = same_maker _;
  reclaim-Absent = same_maker _;
  get-Absent = λ image. same_maker _;
  pull-Absent = λ image. same_maker _;
  unpack-Absent = λ image. same_maker _;
}

abbrev print : Config → String
print c = c.image

creation_fails : (create maker maker_services print config (fresh false)).0 ≡ err no_quota
unfolding create create_fresh load refuse_occupied recover_snapshot provide_image new_container
    build_container rollback_error call attempt handle lift refuse_if ◌>>=◌
creation_fails = refl

create_settled_example :
    ((create maker maker_services print config (fresh false)).1.world ≡ false)
    ⊎ SaysRollback no_quota
create_settled_example =
    create_settled print config maker-IsSnapshotting false refl no_quota creation_fails

-- Whether the quota of the sandbox has been checked, whether what is mounted is hardened, and whether
-- files were only touched when both held.
record Room : Type 0 where
  checked : String
  is_hard : Bool
  is_clean : Bool

abbrev touch : {A : Type 0} → Result A → Exec Room A
touch r w = (r, record w { is_clean = w.is_clean && (str_eq w.checked "sbx_a" && w.is_hard) })

abbrev room_host : Host Room
room_host = record {
  openat2 = λ root name flags. touch (ok 5);
  fstat = λ fd. give (record { mode = 33188; size = 3 });
  open_proc = λ fd. give 8;
  read_all = λ fd n. touch (ok (1 ∷ 2 ∷ []));
  read_dir = λ fd n. touch (ok (bytes "notes" ∷ []));
  fstatat = λ fd name. give (record { mode = 33188; size = 3 });
  mkdirat = λ fd name mode. touch (ok tt);
  unlinkat = λ fd name dir. touch (ok tt);
  create = λ fd name. touch (ok 7);
  write = λ fd b. touch (ok tt);
  chmod = λ fd mode. touch (ok tt);
  sync = λ fd. give tt;
  close = λ fd. give tt;
  rename = λ fd n l. touch (ok tt);
  fresh_id = give (bytes "1");
  encode = λ b. b;
  decode = λ b. some b;
}

abbrev has_option : String → Mount → Bool
has_option o m = any (λ p. str_eq p o) m.options

abbrev are_hard : List Mount → Bool
are_hard ms = all (λ m. has_option "nodev" m && has_option "nosuid" m && has_option "noexec" m) ms

abbrev room_roots : Roots Room
room_roots = record {
  state_root = bytes "/run/c";
  namespace = bytes "sandcube";
  open_directory = λ path. give 3;
  is_overlay = λ fd w. (ok w.is_hard, w);
  with_temp_mount = λ ms f w. f (bytes "/tmp/m") (record w { is_hard = are_hard ms });
}

abbrev room_services : Services Room
room_services = record calm { check_quota = λ id w. (ok tt, record w { checked = id }) }

abbrev Clean : Room → Type 0
Clean w = w.is_clean ≡ true

abbrev Fit : Room → Type 0
Fit w = Clean w × (w.checked ≡ "sbx_a")

abbrev Touchable : Room → Type 0
Touchable w = Fit w × (w.is_hard ≡ true)

abbrev list_root : FileRequest
list_root = record { operation = "list"; path = bytes "."; mode = none; content = [] }

abbrev new_room : Room
new_room = record { checked = ""; is_hard = false; is_clean = true }
