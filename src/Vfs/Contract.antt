-- ===== src/Vfs/Contract.antt =====
-- os161/kern/include/vnode.h, fs.h: assumptions on a file system under which the lemmas of Vfs count
-- references. They are stronger than what vnode.h documents: sfs_reclaim and dev_reclaim can leave
-- the last reference, against `reclaims`, and sfs_rename asserts that both directories are the same,
-- against `renaming`. Vfs/OneDir keeps them.
use azurespider.Prelude.{ℕ, ◌+◌, ◌^◌, ◌<◌, ◌≡◌, ◌⊎◌, Bool, some, List, Run, ok}
use azurespider.Errno.{Code, Errno, Answer, err, got}
use azurespider.Vnode.{VfsState, Vops}
use azurespider.Vnode.Counts.{Sound, Changes, Reclaims, nil, one, refs}

module _ {D : Type 0} where
  -- The call returns, and all counts are as they were.
  abbrev pub Neutral : VfsState D → Run (Code × VfsState D) → Type 0
  Neutral s m = (c : Code) × (s' : VfsState D) × (m ≡ ok (c, s')) × Changes s s' nil nil

  -- The call fails, and all counts are as they were.
  abbrev pub Misses {ℓ} : {A : Type ℓ} → VfsState D → Run (Answer A × VfsState D) → Type ℓ
  Misses s m = (e : Errno) × (s' : VfsState D) × (m ≡ ok (err e, s')) × Changes s s' nil nil

  -- The call hands out a vnode with one reference, or fails.
  abbrev pub Gives : VfsState D → Run (Answer ℕ × VfsState D) → Type 0
  Gives s m =
      Misses s m ⊎ ((v : ℕ) × (s' : VfsState D) × (m ≡ ok (got v, s')) × Changes s s' (one v) nil)

  -- The same with the name that vop_lookparent leaves in the buffer.
  abbrev pub GivesParent : VfsState D → Run (Answer (ℕ × List ℕ) × VfsState D) → Type 0
  GivesParent s m =
      Misses s m
      ⊎ ((v : ℕ) × (name : List ℕ) × (s' : VfsState D) × (m ≡ ok (got (v, name), s'))
          × Changes s s' (one v) nil)

  pub record Contract (ops : Vops D) : Type 0 where
    pub reclaims : Reclaims ops
    pub opening :
        (v flags : ℕ) (s : VfsState D) → Sound s → 0 < refs s v → Neutral s (ops.vop_open v flags s)
    pub closing : (v : ℕ) (s : VfsState D) → Sound s → 0 < refs s v → Neutral s (ops.vop_close v s)
    pub truncating :
        (v len : ℕ) (s : VfsState D) → Sound s → 0 < refs s v → Neutral s (ops.vop_truncate v len s)
    pub typing :
        (v : ℕ) (s : VfsState D)
        → Sound s
        → 0 < refs s v
        → Misses s (ops.vop_gettype v s)
          ⊎ ((mode : ℕ) × (s' : VfsState D) × (ops.vop_gettype v s ≡ ok (got mode, s'))
              × Changes s s' nil nil)
    pub reading_link :
        (v uio : ℕ) (s : VfsState D) → Sound s → 0 < refs s v → Neutral s (ops.vop_readlink v uio s)
    pub symlinking :
        (v : ℕ) (name contents : List ℕ) (s : VfsState D)
        → Sound s
        → 0 < refs s v
        → Neutral s (ops.vop_symlink v name contents s)
    pub making :
        (v : ℕ) (name : List ℕ) (s : VfsState D)
        → Sound s
        → 0 < refs s v
        → Neutral s (ops.vop_mkdir v name s)
    pub removing :
        (v : ℕ) (name : List ℕ) (s : VfsState D)
        → Sound s
        → 0 < refs s v
        → Neutral s (ops.vop_remove v name s)
    pub removing_dir :
        (v : ℕ) (name : List ℕ) (s : VfsState D)
        → Sound s
        → 0 < refs s v
        → Neutral s (ops.vop_rmdir v name s)
    pub linking :
        (v file : ℕ) (name : List ℕ) (s : VfsState D)
        → Sound s
        → 0 < refs s v
        → 0 < refs s file
        → Neutral s (ops.vop_link v name file s)
    pub renaming :
        (v w : ℕ) (name name' : List ℕ) (s : VfsState D)
        → Sound s
        → 0 < refs s v
        → 0 < refs s w
        → Neutral s (ops.vop_rename v name w name' s)
    pub creating :
        (v : ℕ) (name : List ℕ) (excl : Bool) (s : VfsState D)
        → Sound s
        → 0 < refs s v
        → Gives s (ops.vop_creat v name excl s)
    pub looking_up :
        (v : ℕ) (path : List ℕ) (s : VfsState D)
        → Sound s
        → 0 < refs s v
        → Gives s (ops.vop_lookup v path s)
    pub looking_up_parent :
        (v buflen : ℕ) (path : List ℕ) (s : VfsState D)
        → Sound s
        → 0 < refs s v
        → GivesParent s (ops.vop_lookparent v path buflen s)
    pub fs_root :
        (fs : ℕ) (s : VfsState D)
        → Sound s
        → (v : ℕ) × (s' : VfsState D) × (ops.fs_getroot fs s ≡ ok (v, s'))
          × Changes s s' (one v) nil
    pub named_root : (name : List ℕ) (s : VfsState D) → Sound s → Gives s (ops.vfs_getroot name s)

  -- Where pathnames start: the current directory is referenced and no device, and the root of the boot
  -- file system is referenced. No reference count is within n of the largest int.
  pub record Anchored (s : VfsState D) (n : ℕ) : Type 0 where
    pub sound : Sound s
    pub cwd_held : (v : ℕ) → s.t_cwd ≡ some v → 0 < refs s v
    pub cwd_fs : (v : ℕ) → s.t_cwd ≡ some v → (fs : ℕ) × ((s.vnodes v).vn_fs ≡ some fs)
    pub bootfs_held : (v : ℕ) → s.bootfs_vnode ≡ some v → 0 < refs s v
    pub few : (v : ℕ) → refs s v + n < 2 ^ 31
