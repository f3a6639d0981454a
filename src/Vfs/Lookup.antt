-- ===== src/Vfs/Lookup.antt =====
-- os161/kern/fs/vfs/vfslookup.c: from a pathname to a vnode, and the boot file system. The 0 that
-- getdevice writes over the colon only ends the device name. bootfs_lock is held for no call out but
-- the VOP_INCREF in getdevice, so what is done under it is one step.
use azurespider.Prelude.{
  ℕ, suc, zero, ◌+◌, Bool, true, false, Option, none, some, List, [], ◌∷◌, ◌++◌, take, drop, ltb,
  ◌==◌, if◌then◌else◌, Run, ok, panic, ◌>>=◌, length,
}
use azurespider.Errno.{Code, Answer, err, got, enoent, einval}
use azurespider.Vnode.{VfsState, Vops, incref, decref, vop}
use azurespider.Vfs.Cwd.{getcurdir, setcurdir, drop_old}

-- ':' and '/'
abbrev pub colon : ℕ
colon = 58

abbrev pub slash : ℕ
slash = 47

-- What the first loop of getdevice finds, and where.
pub data Mark : Type 0 where
  no_mark : Mark
  colon_at slash_at : ℕ → Mark

-- for (i=0; path[i]; i++) of getdevice, from i on.
unfoldable pub first_mark : ℕ → List ℕ → Mark
first_mark i [] = no_mark
first_mark i (c ∷ path) =
    let rest = first_mark (i + 1) path in
    if c == colon then colon_at i else if c == slash then slash_at i else rest

-- while (path[k] == '/') k++;
unfoldable pub skip_slashes : List ℕ → List ℕ
skip_slashes [] = []
skip_slashes (c ∷ path) = let rest = skip_slashes path in if c == slash then rest else c ∷ path

-- strchr(s, c) != NULL
unfoldable pub has_char : ℕ → List ℕ → Bool
has_char c [] = false
has_char c (d ∷ s) = if d == c then true else has_char c s

-- strlen of what strchr finds: the characters from the first c on.
unfoldable pub from_char : ℕ → List ℕ → List ℕ
from_char c [] = []
from_char c (d ∷ s) = if d == c then d ∷ s else from_char c s

module _ {D : Type 0} (ops : Vops D) where
  -- change_bootfs
  unfoldable pub change_bootfs : Option ℕ → VfsState D → Run (VfsState D)
  change_bootfs newguy s = drop_old ops s.bootfs_vnode (record s { bootfs_vnode = newguy })

  -- vfs_clearbootfs
  unfoldable pub clearbootfs : VfsState D → Run (VfsState D)
  clearbootfs s = change_bootfs none s

  -- Where getdevice starts for /path and for :path.
  unfoldable pub boot_start : VfsState D → Run (Answer ℕ × VfsState D)
  boot_start s = elim s.bootfs_vnode [
    | none ↦ ok (err enoent, s)
    | some vn ↦ (do s' ← incref vn s; ok (got vn, s'))
  ]

  unfoldable pub own_fs_start : VfsState D → Run (Answer ℕ × VfsState D)
  own_fs_start s = do
    (result, s1) ← getcurdir s
    elim result [
      | err e ↦ ok (err e, s1)
      | got vn ↦ elim (s1.vnodes vn).vn_fs [
        | none ↦ panic
        | some fs ↦ (do
          (startvn, s2) ← ops.fs_getroot fs s1
          s3 ← decref ops vn s2
          ok (got startvn, s3))
      ]
    ]

  -- getdevice from the end of its first loop on: the vnode to start from and the rest of the path.
  unfoldable pub start_at : Mark → List ℕ → VfsState D → Run (Answer ℕ × List ℕ × VfsState D)
  start_at no_mark path s = do (startvn, s') ← getcurdir s; ok (startvn, path, s')
  start_at (slash_at (suc i)) path s = do (startvn, s') ← getcurdir s; ok (startvn, path, s')
  start_at (colon_at (suc i)) path s = do
    (startvn, s') ← ops.vfs_getroot (take (suc i) path) s
    ok (startvn, skip_slashes (drop (suc (suc i)) path), s')
  start_at (slash_at zero) path s = do
    (startvn, s') ← boot_start s
    ok (startvn, skip_slashes (drop 1 path), s')
  start_at (colon_at zero) path s = do
    (startvn, s') ← own_fs_start s
    ok (startvn, skip_slashes (drop 1 path), s')

  -- getdevice
  unfoldable pub getdevice : List ℕ → VfsState D → Run (Answer ℕ × List ℕ × VfsState D)
  getdevice path s = start_at (first_mark 0 path) path s

  -- vfs_lookparent: the directory, and the name that it leaves in a buffer of buflen bytes.
  unfoldable pub lookparent : List ℕ → ℕ → VfsState D → Run (Answer (ℕ × List ℕ) × VfsState D)
  lookparent path buflen s = do
    (start, subpath, s1) ← getdevice path s
    elim start [
      | err e ↦ ok (err e, s1)
      | got startvn ↦ elim subpath [
        | [] ↦ (do s2 ← decref ops startvn s1; ok (err einval, s2))
        | c ∷ cs ↦ (do
          (result, s2) ← vop startvn (ops.vop_lookparent startvn (c ∷ cs) buflen) s1
          s3 ← decref ops startvn s2
          ok (result, s3))
      ]
    ]

  -- vfs_lookup
  unfoldable pub lookup : List ℕ → VfsState D → Run (Answer ℕ × VfsState D)
  lookup path s = do
    (start, subpath, s1) ← getdevice path s
    elim start [
      | err e ↦ ok (err e, s1)
      | got startvn ↦ elim subpath [
        | [] ↦ ok (got startvn, s1)
        | c ∷ cs ↦ (do
          (result, s2) ← vop startvn (ops.vop_lookup startvn (c ∷ cs)) s1
          s3 ← decref ops startvn s2
          ok (result, s3))
      ]
    ]

  -- vfs_chdir of vfscwd.c
  unfoldable pub chdir : List ℕ → VfsState D → Run (Code × VfsState D)
  chdir path s = do
    (found, s1) ← lookup path s
    elim found [
      | err e ↦ ok (some e, s1)
      | got vn ↦ (do (result, s2) ← setcurdir ops vn s1; s3 ← decref ops vn s2; ok (result, s3))
    ]

  -- vfs_setbootfs from the vfs_chdir on.
  unfoldable pub boot_from : List ℕ → VfsState D → Run (Code × VfsState D)
  boot_from tmp s = do
    (result, s1) ← chdir tmp s
    elim result [
      | some e ↦ ok (some e, s1)
      | none ↦ (do
        (cwd, s2) ← getcurdir s1
        elim cwd [
          | err e ↦ ok (some e, s2)
          | got newguy ↦ (do s3 ← change_bootfs (some newguy) s2; ok (none, s3))
        ])
    ]

  -- vfs_setbootfs
  unfoldable pub setbootfs : List ℕ → VfsState D → Run (Code × VfsState D)
  setbootfs fsname s =
      let tmp = take 254 fsname in
      if has_char colon tmp
      then (if ltb 0 (length (from_char colon tmp)) then ok (some einval, s) else boot_from tmp s)
      else boot_from (tmp ++ colon ∷ []) s
