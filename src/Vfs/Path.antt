-- ===== src/Vfs/Path.antt =====
-- os161/kern/fs/vfs/vfspath.c: the operations on pathnames. A uio and a buffer are addresses.
use azurespider.Prelude.{
  ℕ, Bool, true, false, not, ◌||◌, bit_and, Option, none, some, List, ◌==◌, if◌then◌else◌, Run, ok,
  ◌>>=◌,
}
use azurespider.Errno.{Code, Answer, err, got, einval, exdev}
use azurespider.Vnode.{VfsState, Vops, incopen, decref, decopen, vop}
use azurespider.Vfs.Lookup.{lookparent, lookup}

-- The size of the name buffers, NAME_MAX + 1.
abbrev pub name_size : ℕ
name_size = 256

-- The flags of open.
abbrev pub o_creat : ℕ → Bool
o_creat flags = not (bit_and flags 4 == 0)

abbrev pub o_excl : ℕ → Bool
o_excl flags = not (bit_and flags 8 == 0)

abbrev pub o_trunc : ℕ → Bool
o_trunc flags = not (bit_and flags 16 == 0)

-- The switch on openflags & O_ACCMODE: `canwrite`, or none for EINVAL.
unfoldable pub canwrite : ℕ → Option Bool
canwrite how = if how == 0 then some false else if how == 1 || how == 2 then some true else none

-- olddir->vn_fs==NULL || newdir->vn_fs==NULL || olddir->vn_fs != newdir->vn_fs
unfoldable pub crosses : Option ℕ → Option ℕ → Bool
crosses none b = true
crosses (some a) none = true
crosses (some a) (some b) = not (a == b)

module _ {D : Type 0} (ops : Vops D) where
  -- The first half of vfs_open: the vnode, looked up or created.
  unfoldable pub open_vnode : List ℕ → ℕ → VfsState D → Run (Answer ℕ × VfsState D)
  open_vnode path openflags s =
      let plain = lookup ops path s in
      let creat = (do
        (parent, s1) ← lookparent ops path name_size s
        elim parent [
          | err e ↦ ok (err e, s1)
          | got (dir, name) ↦ (do
            (result, s2) ← vop dir (ops.vop_creat dir name (o_excl openflags)) s1
            s3 ← decref ops dir s2
            ok (result, s3))
        ]) in
      if o_creat openflags then creat else plain

  -- The truncation in vfs_open.
  unfoldable pub truncate_new : ℕ → Bool → ℕ → VfsState D → Run (Code × VfsState D)
  truncate_new vn writes openflags s =
      let trunc = vop vn (ops.vop_truncate vn 0) s in
      if o_trunc openflags then (if writes then trunc else ok (some einval, s)) else ok (none, s)

  -- The second half of vfs_open.
  unfoldable pub open_found : ℕ → Bool → ℕ → VfsState D → Run (Answer ℕ × VfsState D)
  open_found vn writes openflags s = do
    (result, s1) ← vop vn (ops.vop_open vn openflags) s
    elim result [
      | some e ↦ (do s2 ← decref ops vn s1; ok (err e, s2))
      | none ↦ (do
        s2 ← incopen vn s1
        (result, s3) ← truncate_new vn writes openflags s2
        elim result [
          | none ↦ ok (got vn, s3)
          | some e ↦ (do s4 ← decopen ops vn s3; s5 ← decref ops vn s4; ok (err e, s5))
        ])
    ]

  -- vfs_open
  unfoldable pub open_path : List ℕ → ℕ → VfsState D → Run (Answer ℕ × VfsState D)
  open_path path openflags s = elim (canwrite (bit_and openflags 3)) [
    | none ↦ ok (err einval, s)
    | some writes ↦ (do
      (found, s1) ← open_vnode path openflags s
      elim found [ err e ↦ ok (err e, s1) | got vn ↦ open_found vn writes openflags s1 ])
  ]

  -- vfs_close
  unfoldable pub close : ℕ → VfsState D → Run (VfsState D)
  close vn s = do s1 ← decopen ops vn s; decref ops vn s1

  -- What vfs_remove, vfs_symlink, vfs_mkdir and vfs_rmdir share: an operation on the parent directory
  -- and the name in it.
  abbrev pub at_parent :
      (ℕ → List ℕ → VfsState D → Run (Code × VfsState D))
      → List ℕ
      → VfsState D
      → Run (Code × VfsState D)
  at_parent op path s = do
    (parent, s1) ← lookparent ops path name_size s
    elim parent [
      | err e ↦ ok (some e, s1)
      | got (dir, name) ↦ (do
        (result, s2) ← vop dir (op dir name) s1
        s3 ← decref ops dir s2
        ok (result, s3))
    ]

  -- vfs_remove, vfs_symlink, vfs_mkdir, vfs_rmdir
  unfoldable pub remove : List ℕ → VfsState D → Run (Code × VfsState D)
  remove = at_parent ops.vop_remove

  unfoldable pub symlink : List ℕ → List ℕ → VfsState D → Run (Code × VfsState D)
  symlink contents = at_parent λ dir name. ops.vop_symlink dir name contents

  unfoldable pub mkdir : List ℕ → VfsState D → Run (Code × VfsState D)
  mkdir = at_parent ops.vop_mkdir

  unfoldable pub rmdir : List ℕ → VfsState D → Run (Code × VfsState D)
  rmdir = at_parent ops.vop_rmdir

  -- vfs_readlink
  unfoldable pub readlink : List ℕ → ℕ → VfsState D → Run (Code × VfsState D)
  readlink path uio s = do
    (found, s1) ← lookup ops path s
    elim found [
      | err e ↦ ok (some e, s1)
      | got vn ↦ (do
        (result, s2) ← vop vn (ops.vop_readlink vn uio) s1
        s3 ← decref ops vn s2
        ok (result, s3))
    ]

  -- The end of vfs_rename and vfs_link: `op` if the two vnodes `a` and `b` are on one file system,
  -- then the VOP_DECREFs, of `b` first.
  unfoldable pub on_one_fs :
      ℕ → ℕ → (VfsState D → Run (Code × VfsState D)) → VfsState D → Run (Code × VfsState D)
  on_one_fs a b op s = do
    (result, s1) ←
        if crosses (s.vnodes a).vn_fs (s.vnodes b).vn_fs then ok (some exdev, s) else op s
    s2 ← decref ops b s1
    s3 ← decref ops a s2
    ok (result, s3)

  -- The lookup of the new name in vfs_rename and vfs_link, which gives the vnode `a` back on an error.
  unfoldable pub second_parent :
      ℕ
      → (ℕ → List ℕ → VfsState D → Run (Code × VfsState D))
      → List ℕ
      → VfsState D
      → Run (Code × VfsState D)
  second_parent a op newpath s = do
    (parent, s1) ← lookparent ops newpath name_size s
    elim parent [
      | err e ↦ (do s2 ← decref ops a s1; ok (some e, s2))
      | got (newdir, newname) ↦ on_one_fs a newdir (op newdir newname) s1
    ]

  -- vfs_rename
  unfoldable pub rename : List ℕ → List ℕ → VfsState D → Run (Code × VfsState D)
  rename oldpath newpath s = do
    (parent, s1) ← lookparent ops oldpath name_size s
    elim parent [
      | err e ↦ ok (some e, s1)
      | got (olddir, oldname) ↦
          second_parent olddir
            (λ newdir newname. vop olddir (ops.vop_rename olddir oldname newdir newname)) newpath s1
    ]

  -- vfs_link
  unfoldable pub link : List ℕ → List ℕ → VfsState D → Run (Code × VfsState D)
  link oldpath newpath s = do
    (found, s1) ← lookup ops oldpath s
    elim found [
      | err e ↦ ok (some e, s1)
      | got oldfile ↦
          second_parent oldfile (λ newdir newname. vop newdir (ops.vop_link newdir newname oldfile))
            newpath s1
    ]
