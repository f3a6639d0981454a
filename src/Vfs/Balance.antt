-- ===== src/Vfs/Balance.antt =====
-- os161/kern/fs/vfs/vfspath.c: every operation on pathnames gives back each reference and open that
-- it took, on every path through it.
use azurespider.Prelude.{
  ℕ, ◌+◌, ◌<◌, ◌≡◌, refl, ◌∙◌, inl, inr, Bool-cases, some, List, arith, Run, ok,
}
use azurespider.Errno.{Code, exdev}
use azurespider.Vnode.{VfsState, Vops, vop, decref}
use azurespider.Vnode.Counts.{
  Sound, Changes, nil, one, refs, then-Changes, unchanged, vop-live, one_self,
}
use azurespider.Vfs.Contract.{Neutral, Contract, Anchored}
use azurespider.Vfs.Walk.{drop-gained, still-Anchored, lookup_lem, lookparent_lem}
use azurespider.Vfs.Path.{
  name_size, crosses, remove, symlink, mkdir, rmdir, readlink, on_one_fs, second_parent, rename,
  link, at_parent,
}

module _ {D : Type 0} (ops : Vops D) (k : Contract ops) where
  -- A neutral operation on a vnode that a change has brought, and the VOP_DECREF after it.
  use-and-drop :
      (s s1 : VfsState D) (v : ℕ) (op : VfsState D → Run (Code × VfsState D))
      → Sound s
      → Changes s s1 (one v) nil
      → Neutral s1 (op s1)
      → (c : Code) × (s2 : VfsState D) × (s3 : VfsState D) × (vop v op s1 ≡ ok (c, s2))
        × (decref ops v s2 ≡ ok s3)
        × Changes s s3 nil nil
  use-and-drop s s1 v op w c (code, s2, r, c2) =
      let live : 0 < refs s1 v = omega (arith, c.by_refs v, one_self v) in
      let (s3, r3, c3) =
        drop-gained ops s s2 (one v) nil nil v k.reclaims w
          (then-Changes c c2 (λ u. omega arith) λ u. omega arith) (λ u. omega arith)
          λ u. omega arith in
      (code, s2, s3, vop-live v op s1 c.sound live ∙ r, r3, c3)

  at_parent_lem :
      (op : ℕ → List ℕ → VfsState D → Run (Code × VfsState D))
      → ((v : ℕ) (name : List ℕ) (s : VfsState D)
          → Sound s
          → 0 < refs s v
          → Neutral s (op v name s))
      → (path : List ℕ) (s : VfsState D) → Anchored s 1
      → Neutral s (at_parent ops op path s)
  at_parent_lem op neutral path s a = elim (lookparent_lem ops k path name_size s a) [
    | inl (e, s1, r, c) ↦ (some e, s1, ground (arith, r), c)
    | inr (v, name, s1, r, c) ↦
        let live : 0 < refs s1 v = omega (arith, c.by_refs v, one_self v) in
        let (code, s2, s3, r2, r3, c3) =
          use-and-drop s s1 v (op v name) a.sound c (neutral v name s1 c.sound live) in
        (code, s3, ground (arith, r, r2, r3), c3)
  ]

  -- vfs_remove, vfs_mkdir, vfs_rmdir and vfs_symlink return on every path, and leave the counts of all
  -- vnodes as they were, whether they fail or not.
  pub parent_calls-Neutral :
      (path contents : List ℕ) (s : VfsState D)
      → Anchored s 1
      → Neutral s (remove ops path s)
        × Neutral s (mkdir ops path s)
        × Neutral s (rmdir ops path s)
        × Neutral s (symlink ops contents path s)
  unfolding remove mkdir rmdir symlink
  parent_calls-Neutral path contents s a = (
    at_parent_lem ops.vop_remove k.removing path s a,
    at_parent_lem ops.vop_mkdir k.making path s a,
    at_parent_lem ops.vop_rmdir k.removing_dir path s a,
    at_parent_lem (λ dir name. ops.vop_symlink dir name contents)
        (λ v name. k.symlinking v name contents) path s a,
  )

  -- vfs_readlink returns on every path, and leaves the counts of all vnodes as they were.
  pub readlink_lem :
      (path : List ℕ) (uio : ℕ) (s : VfsState D)
      → Anchored s 1
      → Neutral s (readlink ops path uio s)
  unfolding readlink
  readlink_lem path uio s a = elim (lookup_lem ops k path s a) [
    | inl (e, s1, r, c) ↦ (some e, s1, ground (arith, r), c)
    | inr (v, s1, r, c) ↦
        let live : 0 < refs s1 v = omega (arith, c.by_refs v, one_self v) in
        let (code, s2, s3, r2, r3, c3) =
          use-and-drop s s1 v (ops.vop_readlink v uio) a.sound c
            (k.reading_link v uio s1 c.sound live) in
        (code, s3, ground (arith, r, r2, r3), c3)
  ]

  -- The end of vfs_rename and vfs_link.
  drop-both :
      (s s1 : VfsState D) (a b : ℕ)
      → Sound s
      → Changes s s1 (λ u. one a u + one b u) nil
      → (s2 : VfsState D) × (s3 : VfsState D) × (decref ops b s1 ≡ ok s2)
        × (decref ops a s2 ≡ ok s3)
        × Changes s s3 nil nil
  drop-both s s1 a b w c =
      let (s2, r2, c2) =
        drop-gained ops s s1 (λ u. one a u + one b u) nil (one a) b k.reclaims w c (λ u. refl)
          λ u. omega arith in
      let (s3, r3, c3) =
        drop-gained ops s s2 (one a) nil nil a k.reclaims w c2 (λ u. omega arith)
          λ u. omega arith in
      (s2, s3, r2, r3, c3)

  on_one_fs_lem :
      (s s1 : VfsState D) (a b : ℕ) (op : VfsState D → Run (Code × VfsState D))
      → Sound s
      → Changes s s1 (λ u. one a u + one b u) nil
      → Neutral s1 (op s1)
      → Neutral s (on_one_fs ops a b op s1)
  unfolding on_one_fs
  on_one_fs_lem s s1 a b op w c (code, s2, r, c2) =
      elim (Bool-cases (crosses (s1.vnodes a).vn_fs (s1.vnodes b).vn_fs)) [
        | inl two ↦
            let (s3, s4, r3, r4, c4) = drop-both s s1 a b w c in
            (some exdev, s4, ground (arith, two, r3, r4), c4)
        | inr same ↦
            let (s3, s4, r3, r4, c4) =
              drop-both s s2 a b w (then-Changes c c2 (λ u. omega arith) λ u. omega arith) in
            (code, s4, ground (arith, same, r, r3, r4), c4)
      ]

  second_parent_lem :
      (s s1 : VfsState D) (a : ℕ) (op : ℕ → List ℕ → VfsState D → Run (Code × VfsState D))
      (newpath : List ℕ)
      → Anchored s 2
      → Changes s s1 (one a) nil
      → ((v : ℕ) (name : List ℕ) (s2 : VfsState D)
          → Sound s2
          → 0 < refs s2 v
          → 0 < refs s2 a
          → Neutral s2 (op v name s2))
      → Neutral s (second_parent ops a op newpath s1)
  unfolding second_parent
  second_parent_lem s s1 a op newpath an c neutral =
      let an1 = still-Anchored s s1 (one a) nil 1 1 an c λ u. ground arith in
      elim (lookparent_lem ops k newpath name_size s1 an1) [
        | inl (e, s2, r, c2) ↦
            let (s3, r3, c3) =
              drop-gained ops s s2 (one a) nil nil a k.reclaims an.sound
                (then-Changes c c2 (λ u. omega arith) λ u. omega arith) (λ u. omega arith)
                λ u. omega arith in
            (some e, s3, ground (arith, r, r3), c3)
        | inr (v, name, s2, r, c2) ↦
            let live : 0 < refs s2 v = omega (arith, c2.by_refs v, one_self v) in
            let live_a : 0 < refs s2 a = omega (arith, c.by_refs a, c2.by_refs a, one_self a) in
            let (code, s3, r3, c3) =
              on_one_fs_lem s s2 a v (op v name) an.sound
                (then-Changes c c2 (λ u. refl) λ u. omega arith)
                (neutral v name s2 c2.sound live live_a) in
            (code, s3, ground (arith, r, r3), c3)
      ]

  checked :
      (v : ℕ) (op : VfsState D → Run (Code × VfsState D)) (s : VfsState D)
      → Sound s
      → 0 < refs s v
      → Neutral s (op s)
      → Neutral s (vop v op s)
  checked v op s w live (c, s', r, d) = (c, s', vop-live v op s w live ∙ r, d)

  rename_lem :
      (oldpath newpath : List ℕ) (s : VfsState D)
      → Anchored s 2
      → Neutral s (rename ops oldpath newpath s)
  unfolding rename
  rename_lem oldpath newpath s a =
      elim (lookparent_lem ops k oldpath name_size s
        (still-Anchored s s nil nil 1 1 a (unchanged s a.sound) λ u. omega arith)) [
          | inl (e, s1, r, c) ↦ (some e, s1, ground (arith, r), c)
          | inr (v, name, s1, r, c) ↦
              let op =
                λ (newdir : ℕ) (newname : List ℕ). vop v (ops.vop_rename v name newdir newname) in
              let (code, s2, r2, c2) =
                second_parent_lem s s1 v op newpath a c λ w newname s2 w2 live live_v.
                  checked v (ops.vop_rename v name w newname) s2 w2 live_v
                    (k.renaming v w name newname s2 w2 live_v live) in
              (code, s2, ground (arith, r, r2), c2)
        ]

  link_lem :
      (oldpath newpath : List ℕ) (s : VfsState D)
      → Anchored s 2
      → Neutral s (link ops oldpath newpath s)
  unfolding link
  link_lem oldpath newpath s a =
      elim (lookup_lem ops k oldpath s
        (still-Anchored s s nil nil 1 1 a (unchanged s a.sound) λ u. omega arith)) [
          | inl (e, s1, r, c) ↦ (some e, s1, ground (arith, r), c)
          | inr (v, s1, r, c) ↦
              let op =
                λ (newdir : ℕ) (newname : List ℕ). vop newdir (ops.vop_link newdir newname v) in
              let (code, s2, r2, c2) =
                second_parent_lem s s1 v op newpath a c λ w newname s2 w2 live live_v.
                  checked w (ops.vop_link w newname v) s2 w2 live
                    (k.linking w v newname s2 w2 live live_v) in
              (code, s2, ground (arith, r, r2), c2)
        ]

  -- vfs_rename and vfs_link return on every path, also across file systems and when only the second
  -- lookup fails, and leave the counts of all vnodes as they were.
  pub two_path_calls-Neutral :
      (oldpath newpath : List ℕ) (s : VfsState D)
      → Anchored s 2
      → Neutral s (rename ops oldpath newpath s) × Neutral s (link ops oldpath newpath s)
  two_path_calls-Neutral oldpath newpath s a =
      (rename_lem oldpath newpath s a, link_lem oldpath newpath s a)
