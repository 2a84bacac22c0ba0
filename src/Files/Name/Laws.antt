-- ===== src/Files/Name/Laws.antt =====
-- What a name that `sandboxPath` lets through looks like.
use sandcube.Prelude.{
  ◌≡◌, refl, sym, Bool, true, false, not, ◌&&◌, ◌||◌, List, [], ◌∷◌, ◌++◌, append_assoc, append-nil,
  ◌==◌, arith, any, all, if◌then◌else◌, ltb, length,
}
use sandcube.Exec.{ok, err}
use sandcube.Paths.{
  Bytes, slash, dot, same, split, join, trim_left, clean, clean_parts, clean_step, render, is_empty,
  is_dot, is_dot_dot, is_rooted,
}
use sandcube.Paths.Split.{
  split-append_slash, split-join, split-has_no_slash, has_no_slash, select, select-trim_left,
}
use sandcube.Files.Name.{sandbox_path, err_invalid_path}

-- An element that stands for something: neither empty nor `.`.
abbrev pub is_named : Bytes → Bool
is_named p = not (is_empty p || is_dot p)

clean_parts-append :
    (rooted : Bool) (kept ps : List Bytes)
    → any is_dot_dot ps ≡ false
    → clean_parts rooted kept ps ≡ kept ++ select is_named ps
unfolding clean_parts clean_step select
clean_parts-append rooted kept [] h = sym (append-nil kept)
clean_parts-append rooted kept (p ∷ ps) h = ground (
  arith,
  clean_parts-append rooted (kept ++ p ∷ []) ps,
  clean_parts-append rooted kept ps,
  append_assoc kept (p ∷ []) (select is_named ps),
)

any-trim_left :
    (test : Bytes → Bool) (s : Bytes)
    → any test (split s) ≡ false
    → any test (split (trim_left s)) ≡ false
unfolding trim_left split
any-trim_left test [] h = h
any-trim_left test (c ∷ s) h = ground (arith, any-trim_left test s)

any-append :
    (test : Bytes → Bool) (ps qs : List Bytes) → any test (ps ++ qs) ≡ (any test ps || any test qs)
any-append test [] qs = refl
any-append test (p ∷ ps) qs = ground (arith, any-append test ps qs)

select-append :
    (keep : Bytes → Bool) (ps qs : List Bytes)
    → select keep (ps ++ qs) ≡ select keep ps ++ select keep qs
unfolding select
select-append keep [] qs = refl
select-append keep (p ∷ ps) qs = ground (arith, select-append keep ps qs)

is_rooted-trim_left : (s t : Bytes) → is_rooted (trim_left s ++ slash ∷ t) ≡ is_empty (trim_left s)
unfolding trim_left
is_rooted-trim_left [] t = refl
is_rooted-trim_left (c ∷ s) t = ground (arith, is_rooted-trim_left s t)

split-dot : split (dot ∷ []) ≡ (dot ∷ []) ∷ []
unfolding split
split-dot = refl

select-dot : select is_named ((dot ∷ []) ∷ []) ≡ []
unfolding select same
select-dot = refl

is_dot_dot-dot : is_dot_dot (dot ∷ []) ≡ false
unfolding same
is_dot_dot-dot = refl

clean-trim_left :
    (p : Bytes)
    → any is_dot_dot (split p) ≡ false
    → clean (trim_left p ++ slash ∷ dot ∷ [])
      ≡ render (is_empty (trim_left p)) (select is_named (split p))
unfolding clean
clean-trim_left p h =
    let t = split (trim_left p) in
    let last : List Bytes = (dot ∷ []) ∷ [] in
    ground (
      arith,
      is_rooted-trim_left p (dot ∷ []),
      split-append_slash (trim_left p) (dot ∷ []),
      split-dot,
      clean_parts-append (is_empty (trim_left p)) [] (t ++ last),
      any-append is_dot_dot t last,
      any-trim_left is_dot_dot p,
      select-append is_named t last,
      select-dot,
      is_dot_dot-dot,
      select-trim_left is_named refl p,
      append-nil (select is_named t),
    )

select-all :
    (keep test : Bytes → Bool) (ps : List Bytes)
    → all test ps ≡ true
    → all test (select keep ps) ≡ true
unfolding select
select-all keep test [] h = refl
select-all keep test (p ∷ ps) h = ground (arith, select-all keep test ps)

select_named :
    (ps : List Bytes)
    → any is_dot_dot ps ≡ false
    → all (λ q. is_named q && not (is_dot_dot q)) (select is_named ps) ≡ true
unfolding select
select_named [] h = refl
select_named (p ∷ ps) h = ground (arith, select_named ps)

select_slashes : (p : Bytes) → is_empty (trim_left p) ≡ true → select is_named (split p) ≡ []
unfolding trim_left split select
select_slashes [] h = refl
select_slashes (c ∷ p) h = ground (arith, select_slashes p)

render_lem :
    (rooted : Bool) (ps : List Bytes)
    → (rooted ≡ true → ps ≡ [])
    → render rooted ps ≡ (if rooted then slash ∷ [] else if is_empty ps then dot ∷ [] else join ps)
unfolding render join
render_lem true [] h = refl
render_lem true (p ∷ ps) h = cc (h refl)
render_lem false [] h = refl
render_lem false (p ∷ ps) h = refl

split_named :
    (ps : List Bytes)
    → all has_no_slash ps ≡ true
    → split (join ps) ≡ (if is_empty ps then [] ∷ [] else ps)
unfolding split join
split_named [] h = refl
split_named (p ∷ ps) h = split-join (p ∷ ps) (λ e. cc) h

-- A path is let through exactly if it is not empty, has at most 4096 bytes, no NUL byte and no
-- element `..`. The name is then `/` for slashes alone, `.` for other paths that name nothing, and
-- else the elements of the path in order, none of them empty, `.` or `..`, with one slash between,
-- so that splitting the name gives these elements back.
pub sandbox_path_lem :
    (p : Bytes)
    → let named = select is_named (split p) in
      (sandbox_path p ≡ (
        if is_empty p || ltb 4096 (length p) || any (λ c. c == 0) p || any is_dot_dot (split p)
        then err err_invalid_path
        else ok (
            if is_empty (trim_left p)
            then slash ∷ []
            else if is_empty named
            then dot ∷ []
            else join named)))
      × ((any is_dot_dot (split p) || all (λ q. is_named q && not (is_dot_dot q)) named) ≡ true)
      × (split (join named) ≡ (if is_empty named then [] ∷ [] else named))
unfolding sandbox_path
sandbox_path_lem p =
    let named = select is_named (split p) in
    (
      ground
          (arith, clean-trim_left p, render_lem (is_empty (trim_left p)) named (select_slashes p)),
      ground (arith, select_named (split p)),
      split_named named (select-all is_named has_no_slash (split p) (split-has_no_slash p)),
    )
