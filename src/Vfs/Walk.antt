-- ===== src/Vfs/Walk.antt =====
-- os161/kern/fs/vfs/vfslookup.c, vfscwd.c: what pathname lookup does to the counts of vnodes.
use azurespider.Prelude.{
  take, drop, Option-cases, ℕ, zero, suc, ◌+◌, ◌≤◌, ◌<◌, ◌≡◌, refl, sym, ◌∙◌, ◌⊎◌, inl, inr, some,
  List, [], ◌∷◌, arith, Run, ok, ◌>>=◌,
}
use azurespider.Errno.{Errno, enoent, einval, Answer, err, got}
use azurespider.Vnode.{VfsState, Vops, decref}
use azurespider.Vnode.Counts.{
  Sound, Changes, Reclaims, nil, one, refs, incref-Changes, decref_lem, then-Changes, then-Dropped,
  unchanged, vop-live, one_self,
}
use azurespider.Vfs.Contract.{Misses, Gives, GivesParent, Contract, Anchored}
use azurespider.Vfs.Cwd.{getcurdir}
use azurespider.Vfs.Lookup.{
  start_at, Mark, no_mark, colon_at, slash_at, first_mark, skip_slashes, boot_start, own_fs_start,
  getdevice, lookparent, lookup,
}

module _ {D : Type 0} where
  -- Dropping the reference that a change has brought.
  pub drop-gained :
      (ops : Vops D) (s s1 : VfsState D) (g h k : ℕ → ℕ) (v : ℕ)
      → Reclaims ops
      → Sound s
      → Changes s s1 g h
      → ((u : ℕ) → g u ≡ k u + one v u)
      → ((u : ℕ) → h u ≤ k u)
      → (s2 : VfsState D) × (decref ops v s1 ≡ ok s2) × Changes s s2 k h
  drop-gained ops s s1 g h k v reclaims w c e le =
      let (s2, r, d) =
        decref_lem ops reclaims v s1 c.sound
          (omega (arith, w.opened v, c.by_refs v, c.by_opens v, e v, le v, one_self v)) in
      (s2, r, then-Dropped c d e)

  -- What anchors pathnames still does after a change.
  pub still-Anchored :
      (s s1 : VfsState D) (g h : ℕ → ℕ) (n m : ℕ)
      → Anchored s (n + m)
      → Changes s s1 g h
      → ((u : ℕ) → g u ≤ n)
      → Anchored s1 m
  still-Anchored s s1 g h n m a c le = record {
    sound = c.sound;
    cwd_held = λ v e. omega (arith, a.cwd_held v (sym c.same_cwd ∙ e), c.by_refs v);
    cwd_fs = λ v e.
        let (fs, p) = a.cwd_fs v (sym c.same_cwd ∙ e) in
        (fs, c.same_fs v (a.cwd_held v (sym c.same_cwd ∙ e)) ∙ p);
    bootfs_held = λ v e. omega (arith, a.bootfs_held v (sym c.same_bootfs ∙ e), c.by_refs v);
    few = λ v. omega (arith, a.few v, c.by_refs v, le v);
  }

  -- vfs_getcurdir fails, or hands out the current directory with one more reference.
  getcurdir_lem :
      (s : VfsState D)
      → Anchored s 1
      → Misses s (getcurdir s)
        ⊎ ((v : ℕ) × (s' : VfsState D) × (getcurdir s ≡ ok (got v, s'))
            × (s.t_cwd ≡ some v)
            × Changes s s' (one v) nil)
  unfolding getcurdir
  getcurdir_lem s a = elim (Option-cases s.t_cwd) [
    | inl e ↦ inl (enoent, s, ground (arith, e), unchanged s a.sound)
    | inr (v, e) ↦
        let (s', r, c) = incref-Changes v s a.sound (a.cwd_held v e) (a.few v) in
        inr (v, s', ground (arith, e, r), e, c)
  ]

  module _ (ops : Vops D) (k : Contract ops) where
    -- The start at the root of the boot file system.
    boot_start_lem : (s : VfsState D) → Anchored s 1 → Gives s (boot_start ops s)
    unfolding boot_start
    boot_start_lem s a = elim (Option-cases s.bootfs_vnode) [
      | inl e ↦ inl (enoent, s, ground (arith, e), unchanged s a.sound)
      | inr (v, e) ↦
          let (s', r, c) = incref-Changes v s a.sound (a.bootfs_held v e) (a.few v) in
          inr (v, s', ground (arith, e, r), c)
    ]

    -- The start at the root of the current file system.
    own_fs_start_lem : (s : VfsState D) → Anchored s 1 → Gives s (own_fs_start ops s)
    unfolding own_fs_start
    own_fs_start_lem s a = elim (getcurdir_lem s a) [
      | inl (e, s1, r, c) ↦ inl (e, s1, ground (arith, r), c)
      | inr (v, s1, r, at, c) ↦
          let (fs, p) = a.cwd_fs v at in
          let p1 = c.same_fs v (a.cwd_held v at) ∙ p in
          let (root, s2, r2, c2) = k.fs_root fs s1 c.sound in
          let (s3, r3, c3) =
            drop-gained ops s s2 (λ u. one v u + one root u) nil (one root) v k.reclaims a.sound
              (then-Changes c c2 (λ u. refl) λ u. omega arith) (λ u. omega arith)
              λ u. omega arith in
          inr (root, s3, ground (arith, r, p1, r2, r3), c3)
    ]

    -- A call that hands out the vnode to start from, and the rest of the path.
    abbrev Starts : VfsState D → Run (Answer ℕ × List ℕ × VfsState D) → Type 0
    Starts s m =
        ((e : Errno) × (rest : List ℕ) × (s' : VfsState D) × (m ≡ ok (err e, rest, s'))
          × Changes s s' nil nil)
        ⊎ ((v : ℕ) × (rest : List ℕ) × (s' : VfsState D) × (m ≡ ok (got v, rest, s'))
            × Changes s s' (one v) nil)

    from-Gives :
        (s : VfsState D) (rest : List ℕ) (m : Run (Answer ℕ × VfsState D))
        → Gives s m
        → Starts s (do (startvn, s') ← m; ok (startvn, rest, s'))
    from-Gives s rest m (inl (e, s', r, c)) = inl (e, rest, s', rw r, c)
    from-Gives s rest m (inr (v, s', r, c)) = inr (v, rest, s', rw r, c)

    here : (s : VfsState D) → Anchored s 1 → Gives s (getcurdir s)
    here s a = elim (getcurdir_lem s a) [
      | inl x ↦ inl x
      | inr (v, s1, r, at, c) ↦ inr (v, s1, r, c)
    ]

    start_at_lem :
        (m : Mark) (path : List ℕ) (s : VfsState D)
        → Anchored s 1
        → Starts s (start_at ops m path s)
    unfolding start_at
    start_at_lem no_mark path s a = from-Gives s path (getcurdir s) (here s a)
    start_at_lem (slash_at (suc i)) path s a = from-Gives s path (getcurdir s) (here s a)
    start_at_lem (colon_at (suc i)) path s a =
        from-Gives s (skip_slashes (drop (suc (suc i)) path))
          (ops.vfs_getroot (take (suc i) path) s) (k.named_root (take (suc i) path) s a.sound)
    start_at_lem (slash_at zero) path s a =
        from-Gives s (skip_slashes (drop 1 path)) (boot_start ops s) (boot_start_lem s a)
    start_at_lem (colon_at zero) path s a =
        from-Gives s (skip_slashes (drop 1 path)) (own_fs_start ops s) (own_fs_start_lem s a)

    -- getdevice hands out the vnode to start from with one more reference, or fails.
    getdevice_lem :
        (path : List ℕ) (s : VfsState D) → Anchored s 1 → Starts s (getdevice ops path s)
    unfolding getdevice
    getdevice_lem path s a = start_at_lem (first_mark 0 path) path s a

    -- vfs_lookup hands out a vnode with exactly one more reference, or fails with all counts as they
    -- were, wherever the path starts and also when it names just a device.
    pub lookup_lem : (path : List ℕ) (s : VfsState D) → Anchored s 1 → Gives s (lookup ops path s)
    unfolding lookup
    lookup_lem path s a = elim (getdevice_lem path s a) [
      | inl (e, rest, s1, r, c) ↦ inl (e, s1, ground (arith, r), c)
      | inr (v, [], s1, r, c) ↦ inr (v, s1, ground (arith, r), c)
      | inr (v, x ∷ xs, s1, r, c) ↦
          let live : 0 < refs s1 v = omega (arith, c.by_refs v, one_self v) in
          let pass = vop-live v (ops.vop_lookup v (x ∷ xs)) s1 c.sound live in
          elim (k.looking_up v (x ∷ xs) s1 c.sound live) [
            | inl (e, s2, r2, c2) ↦
                let (s3, r3, c3) =
                  drop-gained ops s s2 (one v) nil nil v k.reclaims a.sound
                    (then-Changes c c2 (λ u. omega arith) λ u. omega arith) (λ u. omega arith)
                    λ u. omega arith in
                inl (e, s3, ground (arith, r, pass, r2, r3), c3)
            | inr (w, s2, r2, c2) ↦
                let (s3, r3, c3) =
                  drop-gained ops s s2 (λ u. one v u + one w u) nil (one w) v k.reclaims a.sound
                    (then-Changes c c2 (λ u. refl) λ u. omega arith) (λ u. omega arith)
                    λ u. omega arith in
                inr (w, s3, ground (arith, r, pass, r2, r3), c3)
          ]
    ]

    -- The same of vfs_lookparent, which fails on a path that names just a device.
    pub lookparent_lem :
        (path : List ℕ) (buflen : ℕ) (s : VfsState D)
        → Anchored s 1
        → GivesParent s (lookparent ops path buflen s)
    unfolding lookparent
    lookparent_lem path buflen s a = elim (getdevice_lem path s a) [
      | inl (e, rest, s1, r, c) ↦ inl (e, s1, ground (arith, r), c)
      | inr (v, [], s1, r, c) ↦
          let (s2, r2, c2) =
            drop-gained ops s s1 (one v) nil nil v k.reclaims a.sound c (λ u. omega arith)
              λ u. omega arith in
          inl (einval, s2, ground (arith, r, r2), c2)
      | inr (v, x ∷ xs, s1, r, c) ↦
          let live : 0 < refs s1 v = omega (arith, c.by_refs v, one_self v) in
          let pass = vop-live v (ops.vop_lookparent v (x ∷ xs) buflen) s1 c.sound live in
          elim (k.looking_up_parent v buflen (x ∷ xs) s1 c.sound live) [
            | inl (e, s2, r2, c2) ↦
                let (s3, r3, c3) =
                  drop-gained ops s s2 (one v) nil nil v k.reclaims a.sound
                    (then-Changes c c2 (λ u. omega arith) λ u. omega arith) (λ u. omega arith)
                    λ u. omega arith in
                inl (e, s3, ground (arith, r, pass, r2, r3), c3)
            | inr (w, name, s2, r2, c2) ↦
                let (s3, r3, c3) =
                  drop-gained ops s s2 (λ u. one v u + one w u) nil (one w) v k.reclaims a.sound
                    (then-Changes c c2 (λ u. refl) λ u. omega arith) (λ u. omega arith)
                    λ u. omega arith in
                inr (w, name, s3, ground (arith, r, pass, r2, r3), c3)
          ]
    ]
