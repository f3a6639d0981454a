-- ===== src/Vfs/Chdir.antt =====
-- os161/kern/fs/vfs/vfscwd.c: what a change of the current directory does to the counts of vnodes.
use azurespider.Prelude.{
  ℕ, ◌+◌, ◌^◌, ◌≤◌, ◌<◌, ◌≡◌, refl, ap, ◌∙◌, ◌⊎◌, inl, inr, Bool-cases, Option, none, some,
  Option-cases, List, arith, ok,
}
use azurespider.Errno.{Errno, enotdir}
use azurespider.Vnode.{VfsState, Vops}
use azurespider.Vnode.Counts.{
  Sound, Changes, Reclaims, nil, one, refs, opens, incref-Changes, decref_lem, then-Changes,
  unchanged, vop-live, one_self,
}
use azurespider.Vfs.Contract.{Contract, Anchored}
use azurespider.Vfs.Walk.{drop-gained, still-Anchored, lookup_lem}
use azurespider.Vfs.Cwd.{s_isdir, drop_old, setcurdir}
use azurespider.Vfs.Lookup.{chdir}

-- The reference that the thread holds to its current directory.
abbrev pub held : Option ℕ → ℕ → ℕ
held none = nil
held (some v) = one v

held-at-most-one : (o : Option ℕ) (u : ℕ) → held o u ≤ 1
held-at-most-one none u = omega arith
held-at-most-one (some v) u = ground arith

module _ {D : Type 0} where
  -- From s to s' the current directory becomes v: its reference to the old one is given back, it has
  -- one to v, and all other counts are as they were, but for g u more references to u.
  pub record Moved (s s' : VfsState D) (v : ℕ) (g : ℕ → ℕ) : Type 0 where
    pub sound : Sound s'
    pub by_refs : (u : ℕ) → refs s' u + held s.t_cwd u ≡ refs s u + one v u + g u
    pub by_opens : (u : ℕ) → opens s' u ≡ opens s u
    pub at : s'.t_cwd ≡ some v
    pub same_bootfs : s'.bootfs_vnode ≡ s.bootfs_vnode

  -- The change of t_cwd in vfs_setcurdir, and the VOP_DECREF of the old directory.
  swap_lem :
      (ops : Vops D)
      → Reclaims ops
      → (s s2 : VfsState D) (dir : ℕ) (g : ℕ → ℕ) → Sound s
      → ((old : ℕ) → s.t_cwd ≡ some old → opens s old < refs s old)
      → Changes s s2 (λ u. one dir u + g u) nil
      → (s3 : VfsState D) × (drop_old ops s2.t_cwd (record s2 { t_cwd = some dir }) ≡ ok s3)
        × Moved s s3 dir g
  unfolding drop_old
  swap_lem ops reclaims s s2 dir g w spare c =
      let moved : VfsState D = record s2 { t_cwd = some dir } in
      let w2 : Sound moved = record {
        locked = c.sound.locked;
        usable = c.sound.usable;
        opened = c.sound.opened;
      } in
      elim (Option-cases s.t_cwd) [
        | inl nowhere ↦
            let gone : s2.t_cwd ≡ none = c.same_cwd ∙ nowhere in
            (
              moved,
              ground (arith, gone),
              record {
                sound = w2;
                by_refs = λ u. omega (arith, c.by_refs u, ap (λ o. held o u) nowhere);
                by_opens = λ u. omega (arith, c.by_opens u);
                at = refl;
                same_bootfs = c.same_bootfs;
              },
            )
        | inr (old, here) ↦
            let before : s2.t_cwd ≡ some old = c.same_cwd ∙ here in
            let (s3, r, d) =
              decref_lem ops reclaims old moved w2
                (omega (arith, spare old here, c.by_refs old, c.by_opens old)) in
            (
              s3,
              ground (arith, before, r),
              record {
                sound = d.sound;
                by_refs = λ u. omega (arith, c.by_refs u, d.by_refs u, ap (λ o. held o u) here);
                by_opens = λ u. omega (arith, c.by_opens u, d.by_opens u);
                at = d.same_cwd;
                same_bootfs = d.same_bootfs ∙ c.same_bootfs;
              },
            )
      ]

  module _ (ops : Vops D) (k : Contract ops) where
    -- vfs_setcurdir on a vnode that a change has brought.
    setcurdir_from :
        (s s1 : VfsState D) (dir : ℕ) (g : ℕ → ℕ)
        → Sound s
        → ((old : ℕ) → s.t_cwd ≡ some old → opens s old < refs s old)
        → Changes s s1 g nil
        → 0 < refs s1 dir
        → refs s1 dir + 1 < 2 ^ 31
        → ((e : Errno) × (s' : VfsState D) × (setcurdir ops dir s1 ≡ ok (some e, s'))
            × Changes s s' g nil)
          ⊎ ((s' : VfsState D) × (setcurdir ops dir s1 ≡ ok (none, s')) × Moved s s' dir g)
    unfolding setcurdir
    setcurdir_from s s1 dir g w spare c live room =
        let pass = vop-live dir (ops.vop_gettype dir) s1 c.sound live in
        elim (k.typing dir s1 c.sound live) [
          | inl (e, s2, r, c2) ↦ inl (
            e,
            s2,
            ground (arith, pass, r),
            then-Changes c c2 (λ u. omega arith) λ u. omega arith,
          )
          | inr (mode, s2, r, c2) ↦ elim (Bool-cases (s_isdir mode)) [
            | inr other ↦ inl (
              enotdir,
              s2,
              ground (arith, pass, r, other),
              then-Changes c c2 (λ u. omega arith) λ u. omega arith,
            )
            | inl folder ↦
                let (s3, r3, c3) =
                  incref-Changes dir s2 c2.sound (omega (arith, live, c2.by_refs dir))
                    (omega (arith, room, c2.by_refs dir)) in
                let (s4, r4, m) = swap_lem ops k.reclaims s s3 dir g w spare (
                  then-Changes (then-Changes c c2 (λ u. refl) λ u. refl) c3 (λ u. omega arith)
                    λ u. omega arith) in
                inr (s4, ground (arith, pass, r, folder, r3, r4), m)
          ]
        ]

    -- vfs_chdir returns on every path: the looked-up directory is current, with one reference for it and
    -- none left for the old one, or it fails with all counts as they were.
    pub chdir_lem :
        (path : List ℕ) (s : VfsState D)
        → Anchored s 2
        → ((old : ℕ) → s.t_cwd ≡ some old → opens s old < refs s old)
        → ((e : Errno) × (s' : VfsState D) × (chdir ops path s ≡ ok (some e, s'))
            × Changes s s' nil nil)
          ⊎ ((v : ℕ) × (s' : VfsState D) × (chdir ops path s ≡ ok (none, s')) × Moved s s' v nil)
    unfolding chdir
    chdir_lem path s a spare =
        elim (lookup_lem ops k path s
          (still-Anchored s s nil nil 1 1 a (unchanged s a.sound) λ u. omega arith)) [
            | inl (e, s1, r, c) ↦ inl (e, s1, ground (arith, r), c)
            | inr (v, s1, r, c) ↦
                elim (setcurdir_from s s1 v (one v) a.sound spare c
                  (omega (arith, c.by_refs v, one_self v))
                  (omega (arith, c.by_refs v, one_self v, a.few v))) [
                    | inl (e, s2, r2, c2) ↦
                        let (s3, r3, c3) =
                          drop-gained ops s s2 (one v) nil nil v k.reclaims a.sound c2
                            (λ u. omega arith) λ u. omega arith in
                        inl (e, s3, ground (arith, r, r2, r3), c3)
                    | inr (s2, r2, m) ↦
                        let (s3, r3, d) = decref_lem ops k.reclaims v s2 m.sound (
                          omega (
                            arith,
                            m.by_refs v,
                            m.by_opens v,
                            one_self v,
                            a.sound.opened v,
                            held-at-most-one s.t_cwd v,
                          )) in
                        inr (
                          v,
                          s3,
                          ground (arith, r, r2, r3),
                          record {
                            sound = d.sound;
                            by_refs = λ u. omega (arith, m.by_refs u, d.by_refs u);
                            by_opens = λ u. d.by_opens u ∙ m.by_opens u;
                            at = d.same_cwd ∙ m.at;
                            same_bootfs = d.same_bootfs ∙ m.same_bootfs;
                          },
                        )
                  ]
          ]
