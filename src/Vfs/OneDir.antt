-- ===== src/Vfs/OneDir.antt =====
-- os161/kern/include/vnode.h: a file system with one directory, vnode 1, that answers every lookup but
-- those of "x", and keeps the contract.
use azurespider.Prelude.{
  subst, ℕ, ◌+◌, ◌<◌, ◌≡◌, refl, ap, ◌∙◌, inl, inr, Bool, true, false, Bool-cases, none, some, List,
  [], ◌∷◌, arith, Run, ok, ◌==◌, if◌then◌else◌,
}
use azurespider.Errno.{Code, err, got, enoent, einval}
use azurespider.Vnode.{Vnode, VfsState, Vops, put_vnode}
use azurespider.Vnode.Counts.{
  put-cases, Sound, Changes, Dropped, nil, one, refs, opens, counted, refs-put, opens-put,
  Sound-put, fs_kept, unchanged,
}
use azurespider.Vfs.Contract.{Neutral, Gives, Contract, Anchored}

abbrev pub Store : Type 0
Store = VfsState (Unit {0})

-- Vnode 1 with one more reference.
abbrev handed : Store → Vnode
handed s = record (s.vnodes 1) { vn_refcount = refs s 1 + 1; vn_countlock = true; vn_ops = true }

abbrev hand : Store → Store
hand s = put_vnode s 1 (handed s)

hand-Changes : (s : Store) → Sound s → Changes s (hand s) (one 1) nil
hand-Changes s w = record {
  sound = record {
    locked = λ u pos. elim (put-cases s 1 (handed s) u) [
      | inl (e, p, q) ↦ ap (λ n. n.vn_countlock) p
      | inr (p, q) ↦
          ap (λ n. n.vn_countlock) p ∙ w.locked u (omega (arith, pos, ap (λ n. n.vn_refcount) p))
    ];
    usable = λ u pos. elim (put-cases s 1 (handed s) u) [
      | inl (e, p, q) ↦ ap (λ n. n.vn_ops) p
      | inr (p, q) ↦
          ap (λ n. n.vn_ops) p ∙ w.usable u (omega (arith, pos, ap (λ n. n.vn_refcount) p))
    ];
    opened = λ u. elim (put-cases s 1 (handed s) u) [
      | inl (e, p, q) ↦
          omega (arith, w.opened 1, ap (λ n. n.vn_refcount) p, ap (λ n. n.vn_opencount) p)
      | inr (p, q) ↦
          omega (arith, w.opened u, ap (λ n. n.vn_refcount) p, ap (λ n. n.vn_opencount) p)
    ];
  };
  by_refs = λ u. elim (put-cases s 1 (handed s) u) [
    | inl (e, p, q) ↦ omega (arith, ap (λ n. n.vn_refcount) p, q, ap (refs s) e)
    | inr (p, q) ↦ omega (arith, ap (λ n. n.vn_refcount) p, q)
  ];
  by_opens = λ u. elim (put-cases s 1 (handed s) u) [
    | inl (e, p, q) ↦ omega (arith, ap (λ n. n.vn_opencount) p, q, ap (opens s) e)
    | inr (p, q) ↦ omega (arith, ap (λ n. n.vn_opencount) p, q)
  ];
  same_cwd = refl;
  same_bootfs = refl;
  same_fs = λ u pos. elim (put-cases s 1 (handed s) u) [
    | inl (e, p, q) ↦ ap (λ n. n.vn_fs) p ∙ ap (λ w. (s.vnodes w).vn_fs) e
    | inr (p, q) ↦ ap (λ n. n.vn_fs) p
  ];
}

-- The path "x".
abbrev is_x : List ℕ → Bool
is_x [] = false
is_x (c ∷ cs) = c == 120

abbrev quiet : Store → Run (Code × Store)
quiet s = ok (none, s)

abbrev pub ops : Vops (Unit {0})
ops = record {
  vop_open = λ v flags. quiet;
  vop_close = λ v. quiet;
  vop_reclaim = λ v s. ok (none, counted s v 0 0);
  vop_readlink = λ v uio. quiet;
  vop_gettype = λ v s. ok (got 8192, s);
  vop_truncate = λ v len s. ok (some einval, s);
  vop_namefile = λ v uio. quiet;
  vop_creat = λ v name excl s. ok (got 1, hand s);
  vop_symlink = λ v name contents. quiet;
  vop_mkdir = λ v name. quiet;
  vop_link = λ v name file. quiet;
  vop_remove = λ v name. quiet;
  vop_rmdir = λ v name. quiet;
  vop_rename = λ v name w name'. quiet;
  vop_lookup = λ v path s. if is_x path then ok (err enoent, s) else ok (got 1, hand s);
  vop_lookparent =
      λ v path buflen s. if is_x path then ok (err enoent, s) else ok (got (1, path), hand s);
  fs_getroot = λ fs s. ok (1, hand s);
  vfs_getroot = λ name s. if is_x name then ok (err enoent, s) else ok (got 1, hand s);
}

quiet_lem : (s : Store) → Sound s → Neutral s (quiet s)
quiet_lem s w = (none, s, refl, unchanged s w)

hands : (path : List ℕ) (s : Store) → Sound s → Gives s (ops.vop_lookup 1 path s)
hands path s w = elim (Bool-cases (is_x path)) [
  | inl x ↦ inl (enoent, s, rw x, unchanged s w)
  | inr y ↦ inr (1, hand s, rw y, hand-Changes s w)
]

reclaim-Dropped :
    (v : ℕ) (s : Store) → Sound s → refs s v ≡ 1 → opens s v ≡ 0 → Dropped s (counted s v 0 0) v
reclaim-Dropped v s w last closed = record {
  sound = Sound-put s v 0 0 w (omega (arith, last)) (omega arith);
  by_refs = λ u. elim (refs-put s v 0 0 u) [
    | inl (e, p, q) ↦ omega (arith, p, q, last, ap (refs s) e)
    | inr (p, q) ↦ omega (arith, p, q)
  ];
  by_opens = λ u. elim (opens-put s v 0 0 u) [
    | inl (e, p, q) ↦ omega (arith, p, q, closed, ap (opens s) e)
    | inr (p, q) ↦ p
  ];
  same_cwd = refl;
  same_bootfs = refl;
  same_fs = λ u pos. fs_kept s v 0 0 u;
}

pub contract : Contract ops
contract = record {
  reclaims = λ v s w last closed. (none, counted s v 0 0, refl, reclaim-Dropped v s w last closed);
  opening = λ v flags s w live. quiet_lem s w;
  closing = λ v s w live. quiet_lem s w;
  truncating = λ v len s w live. (some einval, s, refl, unchanged s w);
  typing = λ v s w live. inr (8192, s, refl, unchanged s w);
  reading_link = λ v uio s w live. quiet_lem s w;
  symlinking = λ v name contents s w live. quiet_lem s w;
  making = λ v name s w live. quiet_lem s w;
  removing = λ v name s w live. quiet_lem s w;
  removing_dir = λ v name s w live. quiet_lem s w;
  linking = λ v file name s w live live'. quiet_lem s w;
  renaming = λ v v' name name' s w live live'. quiet_lem s w;
  creating = λ v name excl s w live. inr (1, hand s, refl, hand-Changes s w);
  looking_up = λ v path s w live. hands path s w;
  looking_up_parent = λ v buflen path s w live. elim (Bool-cases (is_x path)) [
    | inl x ↦ inl (enoent, s, rw x, unchanged s w)
    | inr y ↦ inr (1, path, hand s, rw y, hand-Changes s w)
  ];
  fs_root = λ fs s w. (1, hand s, refl, hand-Changes s w);
  named_root = λ name s w. hands name s w;
}

-- Vnode 1 is the current directory and the root of the boot file system 7.
abbrev pub root_vnode : Vnode
root_vnode = record {
  vn_refcount = 2;
  vn_opencount = 0;
  vn_countlock = true;
  vn_fs = some 7;
  vn_data = 0;
  vn_ops = true;
}

abbrev pub no_vnode : Vnode
no_vnode = record {
  vn_refcount = 0;
  vn_opencount = 0;
  vn_countlock = false;
  vn_fs = none;
  vn_data = 0;
  vn_ops = false;
}

abbrev pub booted : Store
booted = record {
  vnodes = λ v. if v == 1 then root_vnode else no_vnode;
  t_cwd = some 1;
  bootfs_vnode = some 1;
  disk = tt;
}

pub booted-Sound : Sound booted
booted-Sound = record {
  locked = λ v pos. ground (arith, pos);
  usable = λ v pos. ground (arith, pos);
  opened = λ v. ground arith;
}

pub it-is-1 : (v : ℕ) → some 1 ≡ some v → 1 ≡ v
it-is-1 v e = ground (arith, e)

pub booted-Anchored : Anchored booted 2
booted-Anchored = record {
  sound = booted-Sound;
  cwd_held = λ v e. subst (λ u. 0 < refs booted u) (it-is-1 v e) (omega arith);
  cwd_fs = λ v e. (7, subst (λ u. (booted.vnodes u).vn_fs ≡ some 7) (it-is-1 v e) refl);
  bootfs_held = λ v e. subst (λ u. 0 < refs booted u) (it-is-1 v e) (omega arith);
  few = λ v. ground arith;
}
