-- ===== src/Vfs/Open.antt =====
-- os161/kern/fs/vfs/vfspath.c: vfs_open and vfs_close and the counts of vnodes.
use azurespider.Prelude.{
  ℕ, ◌+◌, ◌<◌, ◌≡◌, refl, sym, subst, ◌⊎◌, inl, inr, Bool, Bool-cases, none, some, Option-cases,
  List, bit_and, arith, Run, ok, panic, fault, timeout,
}
use azurespider.Errno.{Answer, err, got, einval}
use azurespider.Vnode.{VfsState, Vops}
use azurespider.Vnode.Counts.{
  Sound, Changes, nil, one, refs, then-Changes, unchanged, vop-live, one_self,
}
use azurespider.Vnode.Opens.{incopen_lem, decopen_lem}
use azurespider.Vfs.Contract.{Neutral, Misses, Gives, Contract, Anchored}
use azurespider.Vfs.Walk.{drop-gained, still-Anchored, lookup_lem, lookparent_lem}
use azurespider.Vfs.Path.{
  name_size, o_creat, o_excl, o_trunc, canwrite, open_vnode, truncate_new, open_found, open_path,
  close,
}

module _ {D : Type 0} (ops : Vops D) (k : Contract ops) where
  -- The vnode that vfs_open finds or creates.
  open_vnode_lem :
      (path : List ℕ) (flags : ℕ) (s : VfsState D)
      → Anchored s 1
      → Gives s (open_vnode ops path flags s)
  unfolding open_vnode
  open_vnode_lem path flags s a = elim (Bool-cases (o_creat flags)) [
    | inr plain ↦ elim (lookup_lem ops k path s a) [
      | inl (e, s1, r, c) ↦ inl (e, s1, ground (arith, plain, r), c)
      | inr (v, s1, r, c) ↦ inr (v, s1, ground (arith, plain, r), c)
    ]
    | inl creat ↦ elim (lookparent_lem ops k path name_size s a) [
      | inl (e, s1, r, c) ↦ inl (e, s1, ground (arith, creat, r), c)
      | inr (v, name, s1, r, c) ↦
          let live : 0 < refs s1 v = omega (arith, c.by_refs v, one_self v) in
          let pass = vop-live v (ops.vop_creat v name (o_excl flags)) s1 c.sound live in
          elim (k.creating v name (o_excl flags) s1 c.sound live) [
            | inl (e, s2, r2, c2) ↦
                let (s3, r3, c3) =
                  drop-gained ops s s2 (one v) nil nil v k.reclaims a.sound
                    (then-Changes c c2 (λ u. omega arith) λ u. omega arith) (λ u. omega arith)
                    λ u. omega arith in
                inl (e, s3, ground (arith, creat, r, pass, r2, r3), c3)
            | inr (w, s2, r2, c2) ↦
                let (s3, r3, c3) =
                  drop-gained ops s s2 (λ u. one v u + one w u) nil (one w) v k.reclaims a.sound
                    (then-Changes c c2 (λ u. refl) λ u. omega arith) (λ u. omega arith)
                    λ u. omega arith in
                inr (w, s3, ground (arith, creat, r, pass, r2, r3), c3)
          ]
    ]
  ]

  -- The truncation fails for a read-only open.
  truncate_new_lem :
      (v : ℕ) (writes : Bool) (flags : ℕ) (s : VfsState D)
      → Sound s
      → 0 < refs s v
      → Neutral s (truncate_new ops v writes flags s)
  unfolding truncate_new
  truncate_new_lem v writes flags s w live = elim (Bool-cases (o_trunc flags)) [
    | inr keep ↦ (none, s, ground (arith, keep), unchanged s w)
    | inl trunc ↦ elim (Bool-cases writes) [
      | inr readonly ↦ (some einval, s, ground (arith, trunc, readonly), unchanged s w)
      | inl writable ↦
          let (code, s1, r, c) = k.truncating v 0 s w live in
          let pass = vop-live v (ops.vop_truncate v 0) s w live in
          (code, s1, ground (arith, trunc, writable, pass, r), c)
    ]
  ]

  -- A call that hands out a vnode with one reference and one open, or fails.
  abbrev pub Opens : VfsState D → Run (Answer ℕ × VfsState D) → Type 0
  Opens s m =
      Misses s m
      ⊎ ((v : ℕ) × (s' : VfsState D) × (m ≡ ok (got v, s')) × Changes s s' (one v) (one v))

  open_found_lem :
      (v : ℕ) (writes : Bool) (flags : ℕ) (s s1 : VfsState D)
      → Anchored s 2
      → Changes s s1 (one v) nil
      → Opens s (open_found ops v writes flags s1)
  unfolding open_found
  open_found_lem v writes flags s s1 a c =
      let live : 0 < refs s1 v = omega (arith, c.by_refs v, one_self v) in
      let (code, s2, r2, c2) = k.opening v flags s1 c.sound live in
      let pass = vop-live v (ops.vop_open v flags) s1 c.sound live in
      let d2 : Changes s s2 (one v) nil = then-Changes c c2 (λ u. omega arith) λ u. omega arith in
      elim (Option-cases code) [
        | inr (e, failed) ↦
            let (s3, r3, c3) =
              drop-gained ops s s2 (one v) nil nil v k.reclaims a.sound d2 (λ u. omega arith)
                λ u. omega arith in
            inl (e, s3, ground (arith, pass, r2, failed, r3), c3)
        | inl opened ↦
            let (s3, r3, c3) =
              incopen_lem v s2 d2.sound
                (omega (arith, d2.by_refs v, d2.by_opens v, one_self v, a.sound.opened v))
                (omega (arith, d2.by_opens v, a.sound.opened v, a.few v)) in
            let d3 : Changes s s3 (one v) (one v) =
              then-Changes d2 c3 (λ u. omega arith) λ u. omega arith in
            let (code', s4, r4, c4) =
              truncate_new_lem v writes flags s3 d3.sound
                (omega (arith, d3.by_refs v, one_self v)) in
            let d4 : Changes s s4 (one v) (one v) =
              then-Changes d3 c4 (λ u. omega arith) λ u. omega arith in
            elim (Option-cases code') [
              | inl done ↦ inr (v, s4, ground (arith, pass, r2, opened, r3, r4, done), d4)
              | inr (e, failed) ↦
                  let (s5, r5, c5) =
                    decopen_lem ops k.closing s s4 (one v) nil v
                      (then-Changes d4 (unchanged s4 d4.sound) (λ u. omega arith) λ u. omega arith)
                      (omega (arith, d4.by_opens v, one_self v)) in
                  let (s6, r6, c6) =
                    drop-gained ops s s5 (one v) nil nil v k.reclaims a.sound c5 (λ u. omega arith)
                      λ u. omega arith in
                  inl (e, s6, ground (arith, pass, r2, opened, r3, r4, failed, r5, r6), c6)
            ]
      ]

  -- vfs_open returns on every path: a vnode with exactly one more reference and one more open, or an
  -- error with all counts as they were, also when the truncation at the end fails.
  pub open_path_lem :
      (path : List ℕ) (flags : ℕ) (s : VfsState D)
      → Anchored s 2
      → Opens s (open_path ops path flags s)
  unfolding open_path
  open_path_lem path flags s a = elim (Option-cases (canwrite (bit_and flags 3))) [
    | inl bad ↦ inl (einval, s, ground (arith, bad), unchanged s a.sound)
    | inr (writes, how) ↦
        elim (open_vnode_lem path flags s
          (still-Anchored s s nil nil 1 1 a (unchanged s a.sound) λ u. omega arith)) [
            | inl (e, s1, r, c) ↦ inl (e, s1, ground (arith, how, r), c)
            | inr (v, s1, r, c) ↦ elim (open_found_lem v writes flags s s1 a c) [
              | inl (e, s2, r2, c2) ↦ inl (e, s2, ground (arith, how, r, r2), c2)
              | inr (w, s2, r2, c2) ↦ inr (w, s2, ground (arith, how, r, r2), c2)
            ]
          ]
  ]

  close_lem :
      (v : ℕ) (s s1 : VfsState D)
      → Sound s
      → Changes s s1 (one v) (one v)
      → (s2 : VfsState D) × (close ops v s1 ≡ ok s2) × Changes s s2 nil nil
  unfolding close
  close_lem v s s1 w c =
      let (s2, r2, c2) =
        decopen_lem ops k.closing s s1 (one v) nil v
          (then-Changes c (unchanged s1 c.sound) (λ u. omega arith) λ u. omega arith)
          (omega (arith, c.by_opens v, one_self v)) in
      let (s3, r3, c3) =
        drop-gained ops s s2 (one v) nil nil v k.reclaims w c2 (λ u. omega arith)
          λ u. omega arith in
      (s3, ground (arith, r2, r3), c3)

  -- What vfs_close does to the result of vfs_open.
  abbrev Closes : VfsState D → Run (Answer ℕ × VfsState D) → Type 0
  Closes s (ok (got v, s1)) = (s2 : VfsState D) × (close ops v s1 ≡ ok s2) × Changes s s2 nil nil
  Closes s (ok (err e, s1)) = Unit
  Closes s panic = Unit
  Closes s fault = Unit
  Closes s timeout = Unit

  -- vfs_close after a successful vfs_open puts all counts back.
  pub close-open_path :
      (path : List ℕ) (flags v : ℕ) (s s1 : VfsState D)
      → Anchored s 2
      → open_path ops path flags s ≡ ok (got v, s1)
      → (s2 : VfsState D) × (close ops v s1 ≡ ok s2) × Changes s s2 nil nil
  close-open_path path flags v s s1 a e = subst (Closes s) e (elim (open_path_lem path flags s a) [
    | inl (x, s', r, c) ↦ subst (Closes s) (sym r) tt
    | inr (w, s', r, c) ↦ subst (Closes s) (sym r) (close_lem w s s' a.sound c)
  ])
