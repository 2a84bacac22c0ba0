-- ===== src/Tests/Quotas.antt =====
-- The theorems on quotas and images at a concrete input.
use sandcube.Prelude.{
  ◌≡◌, refl, true, false, ◌&&◌, some, any, [], ◌∷◌, String, if◌then◌else◌, arith,
}
use sandcube.Prelude.Int.{pos, below, above}
use sandcube.Exec.{
  ok, err, OnOk, succeeded, message, refuse_if, attempt, handle, raise, ◌>>=◌, for_each, deferring,
  lift,
}
use sandcube.Paths.{
  bytes, same, after_prefix, split, join, trim_right, clean, clean_parts, clean_step, render,
  up_to_slash, dir, base, contains,
}
use sandcube.Paths.Absolute.{absolute}
use sandcube.Calls.{Call, call, fresh, Follows}
use sandcube.Quota.Path.{
  snapshot_quota_path, quota_path_of, find_upper, upper_option, parse_uint, decimal_from,
}
use sandcube.Quota.Path.Laws.{names_upper, is_project, value, snapshot_quota_path_lem}
use sandcube.Quota.Device.{quota_device, covers, best_mount, has_project_quota}
use sandcube.Quota.Device.Laws.{IsDevice, quota_device-IsDevice}
use sandcube.Quota.Enforce.{
  enforce_quota, enforce_on, prepare_limits, check_limits, explaining, tag_directory,
  check_directory, tag_opened, check_opened, limits_of, same_limits, inherits, with_inherit,
}
use sandcube.Quota.Enforce.Laws.{IsInForce, enforce_quota-IsInForce}
use sandcube.Quota.Journal.{prepare_quota, reclaim_quota}
use sandcube.Quota.Journal.Laws.{IsFinished, reclaim_quota-IsFinished}
use sandcube.Quota.Journal.Safety.{reclaim_quota-Safe}
use sandcube.Quota.Journal.Named.{quota_order}
use sandcube.Tests.Ledgers.{ledger, IsBooked, ledger-IsNaming, blank}
use sandcube.Images.{ImageRequest, import_image}
use sandcube.Images.Laws.{import_image-Has}
use sandcube.Tests.Disks.{
  overlay, overlay_mount, mount_table, empty_volume, volume, volume-IsReadable, used_disk, disk,
  disk-IsTimed, disk-IsGuarded, IsLimited, shelf, shelf-IsNamed,
}

overlay_upper :
    after_prefix (bytes "upperdir=") (bytes "upperdir=/snap/7/fs")
    ≡ some (absolute (bytes "snap" ∷ bytes "7" ∷ bytes "fs" ∷ []))
unfolding after_prefix join
overlay_upper = refl

none_is_first : any names_upper ("workdir=/snap/7/work" ∷ []) ≡ false
unfolding after_prefix
none_is_first = refl

mounts_listed : (volume.mounts (volume.is_xfs (bytes "/snap/7") empty_volume).1).0 ≡ ok mount_table
mounts_listed = refl

quota_set : succeeded (enforce_quota volume overlay (pos 64) true (fresh empty_volume)).0 ≡ true
unfolding enforce_quota enforce_on prepare_limits check_limits explaining tag_directory
    check_directory tag_opened check_opened snapshot_quota_path quota_path_of find_upper
    upper_option parse_uint decimal_from limits_of same_limits inherits with_inherit quota_device
    covers best_mount has_project_quota call refuse_if attempt handle raise ◌>>=◌ for_each deferring
    lift same split join trim_right clean clean_parts clean_step render up_to_slash dir base
    after_prefix contains
quota_set = refl

snapshot_quota_path_lem_example : snapshot_quota_path overlay ≡ (
    if is_project (bytes "7") && same (bytes "fs") (bytes "fs")
    then ok (absolute (bytes "snap" ∷ bytes "7" ∷ []), value 0 (bytes "7"))
    else err (message "unsupported snapshot quota path"))
unfolding same join
snapshot_quota_path_lem_example =
    snapshot_quota_path_lem [] [] overlay_mount ("workdir=/snap/7/work" ∷ []) []
      "upperdir=/snap/7/fs" (bytes "snap" ∷ []) (bytes "7") (bytes "fs") refl refl refl
      none_is_first overlay_upper refl

quota_device-IsDevice_example :
    OnOk
      (IsDevice (bytes "/snap/7") mount_table)
      (quota_device volume (bytes "/snap/7") (fresh empty_volume)).0
quota_device-IsDevice_example =
    quota_device-IsDevice volume (bytes "/snap/7") mount_table (fresh empty_volume) mounts_listed

enforce_quota-IsInForce_example :
    let s' = (enforce_quota volume overlay (pos 64) true (fresh empty_volume)).1 in
    (below (pos 64) 16 ≡ false)
    × (above (pos 64) 1048576 ≡ false)
    × IsInForce volume-IsReadable overlay (pos 64) s'.world.view
enforce_quota-IsInForce_example =
    enforce_quota-IsInForce volume-IsReadable overlay (pos 64) true (fresh empty_volume) quota_set

reclaim_quota-IsFinished_example :
    OnOk IsFinished (reclaim_quota disk 201 "sbx_a" (fresh used_disk)).0
reclaim_quota-IsFinished_example =
    reclaim_quota-IsFinished disk-IsTimed 201 "sbx_a" (fresh used_disk) (omega arith)

reclaim_quota-Safe_example : IsLimited (reclaim_quota disk 201 "sbx_a" (fresh used_disk)).1.world
reclaim_quota-Safe_example =
    reclaim_quota-Safe disk-IsGuarded 201 "sbx_a" (fresh used_disk) (λ there. refl)

quota_order_example :
    let made = (prepare_quota ledger "sbx_a" (pos 64) overlay (fresh blank)).1 in
    let gone = (reclaim_quota ledger 201 "sbx_a" (fresh blank)).1.calls in
    IsBooked made.world
    × Follows Call.set_limits Call.write_quota_journal made.calls
    × Follows Call.tag_directory Call.set_limits made.calls
    × Follows Call.remove_quota_journal Call.clear_limits gone
quota_order_example = quota_order ledger-IsNaming 201 (pos 64) overlay blank refl

abbrev request : String → String → ImageRequest
request ref path = record { reference = ref; path = bytes path }

import_image-Has_example :
    (import_image shelf
        (request "img_a" "/build/1/image.tar")
        (fresh (λ n. some "sha256:old"))).1.world
      "img_a"
    ≡ some "sha256:old"
import_image-Has_example =
    import_image-Has shelf-IsNamed "img_a" "sha256:old" (request "img_a" "/build/1/image.tar")
      (fresh (λ n. some "sha256:old")) refl
