-- ===== src/Vnode.antt =====
-- os161/kern/fs/vfs/vnode.c and include/vnode.h: vnodes, their reference and open counts, and the
-- interface of the file systems, which the VOP_* and FSOP_* macros call. A vnode and a struct fs
-- are addresses. Each critical section on vn_countlock is one step, since no code calls out with
-- that lock held. A count is an int that starts at 0 or 1 and that the code holds to be at least 0.
use azurespider.Prelude.{
  ℕ, suc, ◌+◌, ◌-◌, ◌^◌, Bool, true, false, not, ◌&&◌, ◌||◌, Option, none, some, List, ltb, ◌==◌,
  if◌then◌else◌, Run, ok, fault, ◌>>=◌, ◌>>◌, assert,
}
use azurespider.Errno.{Code, Answer, enomem}
pub mod Counts
pub mod Opens
pub mod Held

-- struct vnode. `vn_countlock` says that the lock is there, `vn_ops` that the pointer to the
-- operations is neither NULL nor 0xdeadbeef and that they have the magic number.
pub record Vnode : Type 0 where
  pub vn_refcount : ℕ
  pub vn_opencount : ℕ
  pub vn_countlock : Bool
  pub vn_fs : Option ℕ
  pub vn_data : ℕ
  pub vn_ops : Bool

-- What the VFS layer works on: the vnodes, the current thread's t_cwd, bootfs_vnode, and what the
-- file systems keep for themselves.
pub record VfsState (D : Type 0) : Type 0 where
  pub vnodes : ℕ → Vnode
  pub t_cwd : Option ℕ
  pub bootfs_vnode : Option ℕ
  pub disk : D

-- struct vnode_ops and struct fs, without the operations that the layer does not call itself, and
-- vfs_getroot of vfslist.c. A path or a name is its list of characters. A uio is an address.
pub record Vops (D : Type 0) : Type 0 where
  pub vop_open : ℕ → ℕ → VfsState D → Run (Code × VfsState D)
  pub vop_close : ℕ → VfsState D → Run (Code × VfsState D)
  pub vop_reclaim : ℕ → VfsState D → Run (Code × VfsState D)
  pub vop_readlink : ℕ → ℕ → VfsState D → Run (Code × VfsState D)
  pub vop_gettype : ℕ → VfsState D → Run (Answer ℕ × VfsState D)
  pub vop_truncate : ℕ → ℕ → VfsState D → Run (Code × VfsState D)
  pub vop_namefile : ℕ → ℕ → VfsState D → Run (Code × VfsState D)
  pub vop_creat : ℕ → List ℕ → Bool → VfsState D → Run (Answer ℕ × VfsState D)
  pub vop_symlink : ℕ → List ℕ → List ℕ → VfsState D → Run (Code × VfsState D)
  pub vop_mkdir : ℕ → List ℕ → VfsState D → Run (Code × VfsState D)
  pub vop_link : ℕ → List ℕ → ℕ → VfsState D → Run (Code × VfsState D)
  pub vop_remove : ℕ → List ℕ → VfsState D → Run (Code × VfsState D)
  pub vop_rmdir : ℕ → List ℕ → VfsState D → Run (Code × VfsState D)
  pub vop_rename : ℕ → List ℕ → ℕ → List ℕ → VfsState D → Run (Code × VfsState D)
  pub vop_lookup : ℕ → List ℕ → VfsState D → Run (Answer ℕ × VfsState D)
  pub vop_lookparent : ℕ → List ℕ → ℕ → VfsState D → Run (Answer (ℕ × List ℕ) × VfsState D)
  pub fs_getroot : ℕ → VfsState D → Run (ℕ × VfsState D)
  pub vfs_getroot : List ℕ → VfsState D → Run (Answer ℕ × VfsState D)

-- vnode_init: `ops` says that the operations are there, `lock` that lock_create succeeds.
unfoldable pub init : Bool → Bool → Option ℕ → ℕ → Vnode → Run (Code × Vnode)
init ops lock fs fsdata vn = do
  assert ops
  let vn1 = record vn { vn_ops = ops; vn_refcount = 1; vn_opencount = 0; vn_countlock = lock }
  if not lock then ok (some enomem, vn1) else ok (none, record vn1 { vn_fs = fs; vn_data = fsdata })

-- vnode_kill
unfoldable pub kill : Vnode → Run Vnode
kill vn = do
  assert (vn.vn_refcount == 1)
  assert (vn.vn_opencount == 0)
  assert vn.vn_countlock
  ok (record {
    vn_refcount = 0;
    vn_opencount = 0;
    vn_countlock = false;
    vn_fs = none;
    vn_data = 0;
    vn_ops = false;
  })

-- vnode_check, less the tests that an address is 0xdeadbeef or NULL and that a count is negative.
-- `reclaiming` is strcmp(opstr, "reclaim") == 0. The warnings on large counts are output.
unfoldable pub check : Bool → Vnode → Run (Unit {0})
check reclaiming vn = do
  assert vn.vn_ops
  assert vn.vn_countlock
  assert (not (vn.vn_refcount == 0 && not reclaiming))

module _ {D : Type 0} where
  abbrev pub put_vnode : VfsState D → ℕ → Vnode → VfsState D
  put_vnode s v vn = record s { vnodes = λ u. if v == u then vn else s.vnodes u }

  -- vnode_incref
  unfoldable pub incref : ℕ → VfsState D → Run (VfsState D)
  incref v s = do
    assert (s.vnodes v).vn_countlock
    if ltb ((s.vnodes v).vn_refcount + 1) (2 ^ 31)
        then ok (put_vnode s v (record (s.vnodes v) { vn_refcount = (s.vnodes v).vn_refcount + 1 }))
        else fault

  -- vnode_decref
  unfoldable pub decref : Vops D → ℕ → VfsState D → Run (VfsState D)
  decref ops v s = do
    assert (s.vnodes v).vn_countlock
    assert (ltb 0 (s.vnodes v).vn_refcount)
    if ltb 1 (s.vnodes v).vn_refcount
        then ok (put_vnode s v (record (s.vnodes v) { vn_refcount = (s.vnodes v).vn_refcount - 1 }))
        else (do check true (s.vnodes v); (result, s') ← ops.vop_reclaim v s; ok s')

  -- vnode_incopen
  unfoldable pub incopen : ℕ → VfsState D → Run (VfsState D)
  incopen v s = do
    assert (s.vnodes v).vn_countlock
    if ltb ((s.vnodes v).vn_opencount + 1) (2 ^ 31)
        then ok
            (put_vnode s v (record (s.vnodes v) { vn_opencount = (s.vnodes v).vn_opencount + 1 }))
        else fault

  -- vnode_decopen
  unfoldable pub decopen : Vops D → ℕ → VfsState D → Run (VfsState D)
  decopen ops v s = do
    assert (s.vnodes v).vn_countlock
    assert (ltb 0 (s.vnodes v).vn_opencount)
    let s1 = put_vnode s v (record (s.vnodes v) { vn_opencount = (s.vnodes v).vn_opencount - 1 })
    if ltb 0 (s1.vnodes v).vn_opencount
        then ok s1
        else (do check false (s1.vnodes v); (result, s') ← ops.vop_close v s1; ok s')

  -- VOP_*: vnode_check, then the operation.
  abbrev pub vop {ℓ} : {A : Type ℓ} → ℕ → (VfsState D → Run A) → VfsState D → Run A
  vop v op s = check false (s.vnodes v) >> op s
