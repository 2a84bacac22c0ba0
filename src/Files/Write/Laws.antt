-- ===== src/Files/Write/Laws.antt =====
-- Writes are atomic: a write that fails leaves the file as it was.
use sandcube.Prelude.{
  ℕ, ◌≡◌, ◌≢◌, Bool, true, false, Option, some, [], ◌++◌, arith, inl, inr, Option-cases,
  if◌then◌else◌,
}
use sandcube.Exec.{ok, succeeded, Result-cases, refuse_if}
use sandcube.Paths.{Bytes, bytes}
use sandcube.Files.Host.{Host}
use sandcube.Files.Write.{
  mode_or, old_mode, refuse_leaf, fill, fill_and_rename, replace_file, write_leaf,
}

-- A directory entry that is a regular file.
pub record Node : Type 0 where
  pub content : Bytes
  pub mode : ℕ

-- What the system calls do to the entries of the directory that is open at `parent`: an operation on
-- a descriptor changes the entry that was created with it, and no operation changes another entry.
pub record IsDirectory {W : Type 0} (host : Host W) (parent : ℕ) : Type 0 where
  pub node : W → Bytes → Option Node
  -- the entry that a descriptor was created as
  pub name_of : W → ℕ → Bytes
  pub node-fresh_id : (w : W) (m : Bytes) → node (host.fresh_id w).1 m ≡ node w m
  pub node-fstatat : (w : W) (l m : Bytes) → node (host.fstatat parent l w).1 m ≡ node w m
  pub node-create : (w : W) (n m : Bytes) → n ≢ m → node (host.create parent n w).1 m ≡ node w m
  pub create_lem :
      (w : W) (n : Bytes) (fd : ℕ)
      → (host.create parent n w).0 ≡ ok fd
      → (name_of (host.create parent n w).1 fd ≡ n)
        × (node (host.create parent n w).1 n ≡ some (record { content = []; mode = 420 }))
  pub name_of-write : (w : W) (fd : ℕ) (b : Bytes) → name_of (host.write fd b w).1 fd ≡ name_of w fd
  pub node-write :
      (w : W) (fd : ℕ) (b m : Bytes) → name_of w fd ≢ m → node (host.write fd b w).1 m ≡ node w m
  pub write_lem :
      (w : W) (fd : ℕ) (b : Bytes) (mode : ℕ)
      → succeeded (host.write fd b w).0 ≡ true
      → node w (name_of w fd) ≡ some (record { content = []; mode = mode })
      → node (host.write fd b w).1 (name_of w fd) ≡ some (record { content = b; mode = mode })
  pub name_of-chmod : (w : W) (fd mode : ℕ) → name_of (host.chmod fd mode w).1 fd ≡ name_of w fd
  pub node-chmod :
      (w : W) (fd mode : ℕ) (m : Bytes)
      → name_of w fd ≢ m
      → node (host.chmod fd mode w).1 m ≡ node w m
  pub chmod_lem :
      (w : W) (fd mode old : ℕ) (b : Bytes)
      → succeeded (host.chmod fd mode w).0 ≡ true
      → node w (name_of w fd) ≡ some (record { content = b; mode = old })
      → node (host.chmod fd mode w).1 (name_of w fd) ≡ some (record { content = b; mode = mode })
  pub node-sync : (w : W) (fd : ℕ) (m : Bytes) → node (host.sync fd w).1 m ≡ node w m
  pub node-close : (w : W) (fd : ℕ) (m : Bytes) → node (host.close fd w).1 m ≡ node w m
  pub rename_lem :
      (w : W) (n l : Bytes)
      → succeeded (host.rename parent n l w).0 ≡ true
      → node (host.rename parent n l w).1 l ≡ node w n
  pub rename_failed :
      (w : W) (n l m : Bytes)
      → succeeded (host.rename parent n l w).0 ≡ false
      → node (host.rename parent n l w).1 m ≡ node w m
  pub node-rename :
      (w : W) (n l m : Bytes) → n ≢ m → l ≢ m → node (host.rename parent n l w).1 m ≡ node w m
  pub node-unlinkat :
      (w : W) (n m : Bytes) (dir : Bool)
      → n ≢ m
      → node (host.unlinkat parent n dir w).1 m ≡ node w m

module _ {W : Type 0} {host : Host W} {parent : ℕ} (d : IsDirectory host parent) where
  open d use {node, name_of}

  node-fill :
      (fd mode : ℕ) (content m : Bytes) (w : W)
      → name_of w fd ≢ m
      → node (fill host fd content mode w).1 m ≡ node w m
  unfolding fill
  node-fill fd mode content m w ne =
      let w₁ = (host.write fd content w).1 in
      let w₂ = (host.chmod fd mode w₁).1 in
      ground (
        arith,
        d.node-write w fd content m,
        d.name_of-write w fd content,
        d.node-chmod w₁ fd mode m,
        d.node-sync w₂ fd m,
      )

  fill_lem :
      (fd mode : ℕ) (content : Bytes) (w : W)
      → node w (name_of w fd) ≡ some (record { content = []; mode = 420 })
      → succeeded (fill host fd content mode w).0 ≡ true
      → node (fill host fd content mode w).1 (name_of w fd)
        ≡ some (record { content = content; mode = mode })
  unfolding fill
  fill_lem fd mode content w fresh h =
      let w₁ = (host.write fd content w).1 in
      let w₂ = (host.chmod fd mode w₁).1 in
      ground (
        arith,
        d.write_lem w fd content 420,
        d.name_of-write w fd content,
        d.chmod_lem w₁ fd mode 420 content,
        d.node-sync w₂ fd (name_of w fd),
      )

  -- Only the new file and, on success, the leaf are touched.
  fill_and_rename_lem :
      (tmp leaf content : Bytes) (mode fd : ℕ) (w : W)
      → name_of w fd ≡ tmp
      → node w tmp ≡ some (record { content = []; mode = 420 })
      → tmp ≢ leaf
      → let a = fill_and_rename host parent tmp leaf content mode fd w in
        (succeeded a.0 ≡ true → node a.1 leaf ≡ some (record { content = content; mode = mode }))
        × (succeeded a.0 ≡ false → node a.1 leaf ≡ node w leaf)
  unfolding fill_and_rename
  fill_and_rename_lem tmp leaf content mode fd w named fresh ne =
      let w₁ = (fill host fd content mode w).1 in
      let w₂ = (host.close fd w₁).1 in
      ground (
        arith,
        node-fill fd mode content leaf w,
        fill_lem fd mode content w,
        d.node-close w₁ fd leaf,
        d.node-close w₁ fd tmp,
        d.rename_lem w₂ tmp leaf,
        d.rename_failed w₂ tmp leaf leaf,
      )

  node-fill_and_rename :
      (tmp leaf content m : Bytes) (mode fd : ℕ) (w : W)
      → name_of w fd ≡ tmp
      → tmp ≢ m
      → leaf ≢ m
      → node (fill_and_rename host parent tmp leaf content mode fd w).1 m ≡ node w m
  unfolding fill_and_rename
  node-fill_and_rename tmp leaf content m mode fd w named ne ne' =
      let w₁ = (fill host fd content mode w).1 in
      let w₂ = (host.close fd w₁).1 in
      ground
        (arith, node-fill fd mode content m w, d.node-close w₁ fd m, d.node-rename w₂ tmp leaf m)

-- `m` is none of the names that a write draws for its temporary file.
abbrev pub IsNotTemporary : {W : Type 0} → Host W → Bytes → Type 0
IsNotTemporary {W} host m =
    (w : W) (id : Bytes) → (host.fresh_id w).0 ≡ ok id → bytes ".sandcube-" ++ id ≢ m

module _ {W : Type 0} {host : Host W} {parent : ℕ} (d : IsDirectory host parent) where
  open d use {node}

  replace_file_lem :
      (leaf content : Bytes) (mode : ℕ) (w : W)
      → IsNotTemporary host leaf
      → let a = replace_file host parent leaf content mode w in
        (succeeded a.0 ≡ true → node a.1 leaf ≡ some (record { content = content; mode = mode }))
        × (succeeded a.0 ≡ false → node a.1 leaf ≡ node w leaf)
  unfolding replace_file
  replace_file_lem leaf content mode w plain =
      let w₁ = (host.fresh_id w).1 in
      elim (Result-cases (host.fresh_id w).0) [
        | inr (e, drawn) ↦ ground (arith, drawn, d.node-fresh_id w leaf)
        | inl (id, drawn) ↦
            let tmp = bytes ".sandcube-" ++ id in
            let w₂ = (host.create parent tmp w₁).1 in
            elim (Result-cases (host.create parent tmp w₁).0) [
              | inr (e, made) ↦ ground (
                arith,
                drawn,
                made,
                plain w id drawn,
                d.node-fresh_id w leaf,
                d.node-create w₁ tmp leaf,
              )
              | inl (fd, made) ↦
                  let a = fill_and_rename host parent tmp leaf content mode fd w₂ in
                  ground (
                    arith,
                    drawn,
                    made,
                    plain w id drawn,
                    d.node-fresh_id w leaf,
                    d.node-create w₁ tmp leaf,
                    d.create_lem w₁ tmp fd made,
                    fill_and_rename_lem d tmp leaf content mode fd w₂,
                    d.node-unlinkat a.1 tmp leaf false,
                  )
            ]
      ]

  node-replace_file :
      (leaf content m : Bytes) (mode : ℕ) (w : W)
      → IsNotTemporary host m
      → leaf ≢ m
      → node (replace_file host parent leaf content mode w).1 m ≡ node w m
  unfolding replace_file
  node-replace_file leaf content m mode w plain ne =
      let w₁ = (host.fresh_id w).1 in
      elim (Result-cases (host.fresh_id w).0) [
        | inr (e, drawn) ↦ ground (arith, drawn, d.node-fresh_id w m)
        | inl (id, drawn) ↦
            let tmp = bytes ".sandcube-" ++ id in
            let w₂ = (host.create parent tmp w₁).1 in
            elim (Result-cases (host.create parent tmp w₁).0) [
              | inr (e, made) ↦ ground (
                arith,
                drawn,
                made,
                plain w id drawn,
                d.node-fresh_id w m,
                d.node-create w₁ tmp m,
              )
              | inl (fd, made) ↦
                  let a = fill_and_rename host parent tmp leaf content mode fd w₂ in
                  ground (
                    arith,
                    drawn,
                    made,
                    plain w id drawn,
                    d.node-fresh_id w m,
                    d.node-create w₁ tmp m,
                    d.create_lem w₁ tmp fd made,
                    node-fill_and_rename d tmp leaf content m mode fd w₂,
                    d.node-unlinkat a.1 tmp m false,
                  )
            ]
      ]

  -- For a leaf that has no temporary file's name and content that decodes, in a directory that
  -- behaves as documented: a write that reports success has put the whole decoded content under the leaf, with the requested
  -- mode or else the permissions of the file that was there (0644 if there was none). A write that
  -- reports an error, at whatever step, has left the leaf as it was.
  pub write_leaf_atomic :
      (leaf encoded content : Bytes) (mode : Option ℕ) (w : W)
      → IsNotTemporary host leaf
      → host.decode encoded ≡ some content
      → let (r, w') = write_leaf host parent leaf mode encoded w in
        node w' leaf ≡ (
          if succeeded r
          then some (record {
            content = content;
            mode = mode_or mode (old_mode (host.fstatat parent leaf w).0);
          })
          else node w leaf)
  unfolding write_leaf refuse_leaf refuse_if
  write_leaf_atomic leaf encoded content mode w plain decoded =
      let w₁ = (host.fstatat parent leaf w).1 in
      let mode' = mode_or mode (old_mode (host.fstatat parent leaf w).0) in
      ground
        (arith, decoded, d.node-fstatat w leaf leaf, replace_file_lem leaf content mode' w₁ plain)

  -- No other entry of the directory changes, whether the write succeeds or fails, save one that has the
  -- name of a temporary file.
  node-write_leaf :
      (leaf encoded m : Bytes) (mode : Option ℕ) (w : W)
      → IsNotTemporary host m
      → leaf ≢ m
      → node (write_leaf host parent leaf mode encoded w).1 m ≡ node w m
  unfolding write_leaf refuse_leaf refuse_if
  node-write_leaf leaf encoded m mode w plain ne =
      let w₁ = (host.fstatat parent leaf w).1 in
      let mode' = mode_or mode (old_mode (host.fstatat parent leaf w).0) in
      elim (Option-cases (host.decode encoded)) [
        | inl bad ↦ ground (arith, bad)
        | inr (content, good) ↦ ground (
          arith,
          good,
          d.node-fstatat w leaf m,
          node-replace_file leaf content m mode' w₁ plain ne,
        )
      ]
