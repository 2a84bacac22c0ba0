-- ===== src/Logs/Buffer/Laws.antt =====
-- What a buffer holds after any sequence of writes.
use sandcube.Prelude.{
  ℕ, ◌-◌, ◌≡◌, refl, List, [], ◌∷◌, ◌++◌, append_assoc, append-nil, arith, length, take,
  length-append, length-take, take-append, take_all, ltb,
}
use sandcube.Logs.Buffer.{Buffer, empty, capacity, write, write_within, result}

abbrev pub joined : List (List ℕ) → List ℕ
joined [] = []
joined (p ∷ ps) = p ++ joined ps

-- Several calls of `Write`, with the counts that they return.
pub write_all : (Buffer → List ℕ → Buffer × ℕ) → Buffer → List (List ℕ) → Buffer × List ℕ
write_all w b [] = (b, [])
write_all w b (p ∷ ps) = let (b', n) = w b p in let (b'', ns) = write_all w b' ps in (b'', n ∷ ns)

abbrev pub lengths : List (List ℕ) → List ℕ
lengths [] = []
lengths (p ∷ ps) = length p ∷ lengths ps

module _ (cap : ℕ) where
  -- The buffer after the bytes `seen`, from an empty one.
  abbrev holding : List ℕ → Buffer
  holding seen = record { bytes = take cap seen; truncated = ltb cap (length seen) }

  write-holding :
      (seen p : List ℕ) → write_within cap (holding seen) p ≡ (holding (seen ++ p), length p)
  unfolding write_within
  write-holding seen p =
      let room : cap - length (take cap seen) ≡ cap - length seen =
        omega (arith, length-take cap seen) in
      rw (take-append, room) (ground (arith, length-append seen p, take_all (cap - length seen) p))

  write_all-holding :
      (seen : List ℕ) (ps : List (List ℕ))
      → write_all (write_within cap) (holding seen) ps ≡ (holding (seen ++ joined ps), lengths ps)
  unfolding write_all
  write_all-holding seen [] = rw append-nil
  write_all-holding seen (p ∷ ps) =
      rw (write-holding seen p, write_all-holding (seen ++ p) ps, append_assoc)

-- However the output is cut into writes, each write reports that it took all of its bytes, the
-- buffer holds the first MiB of the output, and `truncated` says exactly whether more came.
pub write_all-result :
    (ps : List (List ℕ))
    → ((write_all write empty ps).1 ≡ lengths ps)
      × (result (write_all write empty ps).0
          ≡ (take capacity (joined ps), ltb capacity (length (joined ps))))
unfolding write result
write_all-result ps = rw (write_all-holding capacity [] ps) (refl, refl)
