-- ===== src/Vfs/Cwd.antt =====
-- os161/kern/fs/vfs/vfscwd.c: the current directory as a vnode. vfs_chdir is in Vfs/Lookup, and
-- vfs_getcwd is not modelled.
use azurespider.Prelude.{Bool, ℕ, bit_and, Option, none, some, ◌==◌, if◌then◌else◌, Run, ok, ◌>>=◌}
use azurespider.Errno.{Code, Answer, err, got, enoent, enotdir}
use azurespider.Vnode.{VfsState, Vops, incref, decref, vop}

-- S_ISDIR
abbrev pub s_isdir : ℕ → Bool
s_isdir mode = bit_and mode 28672 == 8192

module _ {D : Type 0} where
  -- vfs_getcurdir
  unfoldable pub getcurdir : VfsState D → Run (Answer ℕ × VfsState D)
  getcurdir s = elim s.t_cwd [
    | some cwd ↦ (do s' ← incref cwd s; ok (got cwd, s'))
    | none ↦ ok (err enoent, s)
  ]

  -- if (old != NULL) VOP_DECREF(old);
  unfoldable pub drop_old : Vops D → Option ℕ → VfsState D → Run (VfsState D)
  drop_old ops none s = ok s
  drop_old ops (some old) s = decref ops old s

  -- vfs_setcurdir
  unfoldable pub setcurdir : Vops D → ℕ → VfsState D → Run (Code × VfsState D)
  setcurdir ops dir s = do
    (result, s1) ← vop dir (ops.vop_gettype dir) s
    elim result [
      | err e ↦ ok (some e, s1)
      | got vtype ↦
          let set_it = (do
            s2 ← incref dir s1
            s3 ← drop_old ops s2.t_cwd (record s2 { t_cwd = some dir })
            ok (none, s3)) in
          if s_isdir vtype then set_it else ok (some enotdir, s1)
    ]

  -- vfs_clearcurdir
  unfoldable pub clearcurdir : Vops D → VfsState D → Run (Code × VfsState D)
  clearcurdir ops s = do s' ← drop_old ops s.t_cwd (record s { t_cwd = none }); ok (none, s')
