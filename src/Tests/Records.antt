-- ===== src/Tests/Records.antt =====
-- The theorem on atomicJSON at a concrete input.
use sandcube.Prelude.{
  ◌≢◌, sym, arith, Bool-cases, if◌then◌else◌, ◌≡◌, refl, ◌∙◌, ◌⊎◌, inl, inr, true, Option, none,
  some, [], ◌∷◌, All,
}
use sandcube.Exec.{Result, ok, succeeded}
use sandcube.Paths.{Bytes, bytes, same, same_iff}
use sandcube.Atomic.{Disk, noted, atomic_json}
use sandcube.Atomic.Laws.{IsJournaling, IsWhole, IsNew, atomic_json-IsWhole}
use sandcube.Tests.Disks.{give}

-- What the disk has under the one name, what the kernel shows there, and the new file.
record Page : Type 0 where
  durable : Option Bytes
  shown : Option Bytes
  temp : Option Bytes

abbrev record_path : Bytes
record_path = bytes "/state/sbx_a.json"

abbrev page : Disk Page
page = record {
  create_temp = λ parent. give (3, bytes ".pending-1");
  write = λ fd b w. (ok tt, record w { temp = some b });
  sync = λ fd. give tt;
  close = λ fd. give tt;
  rename = λ a b w. (ok tt, record w { shown = w.temp });
  remove = λ name w. (
    ok tt,
    if same name record_path
        then record w { durable = none; shown = none }
        else record w { temp = none },
  );
  open_directory = λ parent. give 4;
  sync_directory = λ d w. (ok tt, record w { durable = w.shown });
}

merge_shown : {A : Type 0} → A ⊎ A → A
merge_shown (inl a) = a
merge_shown (inr a) = a

as_file :
    (c old shown : Option Bytes) (temp : Option Bytes) (b : Bytes)
    → temp ≡ some b
    → (c ≡ old) ⊎ (c ≡ temp)
    → ((c ≡ old) ⊎ (c ≡ shown)) ⊎ (c ≡ some b)
as_file c old shown temp b h (inl e) = inl (inl e)
as_file c old shown temp b h (inr e) = inr (e ∙ h)

own_name : bytes ".pending-1" ≢ record_path
own_name e = ground (arith, e)

after_remove :
    (name : Bytes)
    → name ≢ record_path
    → (w : Page) (c : Option Bytes)
    → let w' = (page.remove name w).1 in
      (c ≡ w'.durable) ⊎ (c ≡ w'.shown) → (c ≡ w.durable) ⊎ (c ≡ w.shown)
after_remove name other w c = elim (Bool-cases (same name record_path)) [
  | inl hit ↦ absurd (other ((same_iff name record_path).0 hit))
  | inr miss ↦ rw miss (λ h. h)
]

page-IsJournaling : IsJournaling page record_path
page-IsJournaling = record {
  May = λ w c. (c ≡ w.durable) ⊎ (c ≡ w.shown);
  Made = λ w t. t.1 ≡ bytes ".pending-1";
  Written = λ w t b. w.temp ≡ some b;
  Stored = λ w t b. w.temp ≡ some b;
  Renamed = λ w b. w.shown ≡ some b;
  Opened = λ w d b. w.shown ≡ some b;
  may-create = λ w c h. h;
  may-write = λ fd b w c h. h;
  may-sync = λ fd w c h. h;
  may-close = λ fd w c h. h;
  may-remove = λ name other w c h. after_remove name other w c h;
  may-open = λ w c h. h;
  may-sync_directory = λ d w c h. inr (merge_shown h);
  create_lem = λ w. refl;
  other_name = λ w t h e. own_name (sym h ∙ e);
  write_lem = λ w t b h. refl;
  sync_lem = λ w t b h. h;
  close_lem = λ w t b h. h;
  may-rename = λ w t b c h found. as_file c w.durable w.shown w.temp b h found;
  rename_lem = λ w t b h. h;
  open_lem = λ w b h. h;
  sync_directory_lem = λ w d b h c found. merge_shown found ∙ h;
}

abbrev first_page : Page
first_page = record { durable = some (bytes "{}"); shown = some (bytes "{}"); temp = none }

abbrev encode : Bytes → Result Bytes
encode b = ok b

atomic_json-IsWhole_example :
    let (r, (last, past)) =
      atomic_json (noted page) record_path encode (bytes "{1}") (first_page, []) in
    All (IsWhole page-IsJournaling first_page (bytes "{1}")) (last ∷ past)
    × (succeeded r ≡ true → IsNew page-IsJournaling first_page (bytes "{1}") last)
atomic_json-IsWhole_example =
    atomic_json-IsWhole page-IsJournaling encode (bytes "{1}") (bytes "{1}") first_page refl
