-- ===== src/Vnode/Counts.antt =====
-- os161/kern/fs/vfs/vnode.c: what the counting functions and the file systems do to the reference
-- and open counts of all vnodes.
use azurespider.Prelude.{
  dec_lt, ℕ, ◌+◌, ◌-◌, ◌^◌, ◌≤◌, ◌<◌, ◌≡◌, refl, ap, ◌∙◌, ◌⊎◌, inl, inr, true, Bool-cases, ◌==◌,
  if◌then◌else◌, arith, Run, ok,
}
use azurespider.Errno.{Code}
use azurespider.Vnode.{Vnode, VfsState, Vops, put_vnode, check, incref, decref, vop}

abbrev pub nil : ℕ → ℕ
nil u = 0

abbrev pub one : ℕ → ℕ → ℕ
one v u = if v == u then 1 else 0

pub one_self : (v : ℕ) → one v v ≡ 1
one_self v = ground arith

module _ {D : Type 0} where
  abbrev pub refs : VfsState D → ℕ → ℕ
  refs s v = (s.vnodes v).vn_refcount

  abbrev pub opens : VfsState D → ℕ → ℕ
  opens s v = (s.vnodes v).vn_opencount

  -- Every vnode in use has its lock and its operations, and each open of a vnode holds a reference.
  pub record Sound (s : VfsState D) : Type 0 where
    pub locked : (v : ℕ) → 0 < refs s v → (s.vnodes v).vn_countlock ≡ true
    pub usable : (v : ℕ) → 0 < refs s v → (s.vnodes v).vn_ops ≡ true
    pub opened : (v : ℕ) → opens s v ≤ refs s v

  -- From s to s' the counts of each vnode u grow by g u and h u, and nothing else that the layer reads
  -- for itself changes.
  pub record Changes (s s' : VfsState D) (g h : ℕ → ℕ) : Type 0 where
    pub sound : Sound s'
    pub by_refs : (u : ℕ) → refs s' u ≡ refs s u + g u
    pub by_opens : (u : ℕ) → opens s' u ≡ opens s u + h u
    pub same_cwd : s'.t_cwd ≡ s.t_cwd
    pub same_bootfs : s'.bootfs_vnode ≡ s.bootfs_vnode
    pub same_fs : (u : ℕ) → 0 < refs s u → (s'.vnodes u).vn_fs ≡ (s.vnodes u).vn_fs

  -- s' is s after one reference to v is given back.
  pub record Dropped (s s' : VfsState D) (v : ℕ) : Type 0 where
    pub sound : Sound s'
    pub by_refs : (u : ℕ) → refs s u ≡ refs s' u + one v u
    pub by_opens : (u : ℕ) → opens s' u ≡ opens s u
    pub same_cwd : s'.t_cwd ≡ s.t_cwd
    pub same_bootfs : s'.bootfs_vnode ≡ s.bootfs_vnode
    pub same_fs : (u : ℕ) → 0 < refs s' u → (s'.vnodes u).vn_fs ≡ (s.vnodes u).vn_fs

  pub put-cases :
      (s : VfsState D) (v : ℕ) (vn : Vnode) (u : ℕ)
      → ((v ≡ u) × ((put_vnode s v vn).vnodes u ≡ vn) × (one v u ≡ 1))
        ⊎ (((put_vnode s v vn).vnodes u ≡ s.vnodes u) × (one v u ≡ 0))
  put-cases s v vn u = elim (Bool-cases (v == u)) [
    | inl e ↦ inl (ground (arith, e), rw e, rw e)
    | inr e ↦ inr (rw e, rw e)
  ]

  -- A put that changes the two counts of v only.
  module _ (s : VfsState D) (v r o : ℕ) where
    abbrev pub counted : VfsState D
    counted = put_vnode s v (record (s.vnodes v) { vn_refcount = r; vn_opencount = o })

    pub refs-put :
        (u : ℕ)
        → ((v ≡ u) × (refs counted u ≡ r) × (one v u ≡ 1))
          ⊎ ((refs counted u ≡ refs s u) × (one v u ≡ 0))
    refs-put u =
        elim (put-cases s v (record (s.vnodes v) { vn_refcount = r; vn_opencount = o }) u) [
          | inl (e, p, q) ↦ inl (e, ap (λ n. n.vn_refcount) p, q)
          | inr (p, q) ↦ inr (ap (λ n. n.vn_refcount) p, q)
        ]

    pub opens-put :
        (u : ℕ)
        → ((v ≡ u) × (opens counted u ≡ o) × (one v u ≡ 1))
          ⊎ ((opens counted u ≡ opens s u) × (one v u ≡ 0))
    opens-put u =
        elim (put-cases s v (record (s.vnodes v) { vn_refcount = r; vn_opencount = o }) u) [
          | inl (e, p, q) ↦ inl (e, ap (λ n. n.vn_opencount) p, q)
          | inr (p, q) ↦ inr (ap (λ n. n.vn_opencount) p, q)
        ]

    pub Sound-put : Sound s → 0 < refs s v → o ≤ r → Sound counted
    Sound-put w live le = record {
      locked = λ u pos.
          elim (put-cases s v (record (s.vnodes v) { vn_refcount = r; vn_opencount = o }) u) [
            | inl (e, p, q) ↦ ap (λ n. n.vn_countlock) p ∙ w.locked v live
            | inr (p, q) ↦
                ap (λ n. n.vn_countlock) p
                ∙ w.locked u (omega (arith, pos, ap (λ n. n.vn_refcount) p))
          ];
      usable = λ u pos.
          elim (put-cases s v (record (s.vnodes v) { vn_refcount = r; vn_opencount = o }) u) [
            | inl (e, p, q) ↦ ap (λ n. n.vn_ops) p ∙ w.usable v live
            | inr (p, q) ↦
                ap (λ n. n.vn_ops) p ∙ w.usable u (omega (arith, pos, ap (λ n. n.vn_refcount) p))
          ];
      opened = λ u.
          elim (put-cases s v (record (s.vnodes v) { vn_refcount = r; vn_opencount = o }) u) [
            | inl (e, p, q) ↦
                omega (arith, le, ap (λ n. n.vn_refcount) p, ap (λ n. n.vn_opencount) p)
            | inr (p, q) ↦
                omega (arith, w.opened u, ap (λ n. n.vn_refcount) p, ap (λ n. n.vn_opencount) p)
          ];
    }

  pub fs_kept :
      (s : VfsState D) (v r o u : ℕ) → ((counted s v r o).vnodes u).vn_fs ≡ (s.vnodes u).vn_fs
  fs_kept s v r o u =
      elim (put-cases s v (record (s.vnodes v) { vn_refcount = r; vn_opencount = o }) u) [
        | inl (e, p, q) ↦ ap (λ n. n.vn_fs) p ∙ ap (λ w. (s.vnodes w).vn_fs) e
        | inr (p, q) ↦ ap (λ n. n.vn_fs) p
      ]

  -- vnode_incref adds one reference.
  pub incref-Changes :
      (v : ℕ) (s : VfsState D)
      → Sound s
      → 0 < refs s v
      → refs s v + 1 < 2 ^ 31
      → (s' : VfsState D) × (incref v s ≡ ok s') × Changes s s' (one v) nil
  unfolding incref
  incref-Changes v s w live room =
      let lock = w.locked v live in
      (
        counted s v (refs s v + 1) (opens s v),
        ground (arith, lock, room),
        record {
          sound = Sound-put s v (refs s v + 1) (opens s v) w live (omega (arith, w.opened v));
          by_refs = λ u. elim (refs-put s v (refs s v + 1) (opens s v) u) [
            | inl (e, p, q) ↦ omega (arith, p, q, ap (refs s) e)
            | inr (p, q) ↦ omega (arith, p, q)
          ];
          by_opens = λ u. elim (opens-put s v (refs s v + 1) (opens s v) u) [
            | inl (e, p, q) ↦ omega (arith, p, q, ap (opens s) e)
            | inr (p, q) ↦ omega (arith, p, q)
          ];
          same_cwd = refl;
          same_bootfs = refl;
          same_fs = λ u pos. fs_kept s v (refs s v + 1) (opens s v) u;
        },
      )

  -- What vop_reclaim owes for a vnode with one reference that is not open: it gives the reference
  -- back.
  abbrev pub Reclaims : Vops D → Type 0
  Reclaims ops =
      (v : ℕ) (s : VfsState D)
      → Sound s
      → refs s v ≡ 1
      → opens s v ≡ 0
      → (c : Code) × (s' : VfsState D) × (ops.vop_reclaim v s ≡ ok (c, s')) × Dropped s s' v

  -- vnode_decref gives one reference back, by vop_reclaim when it is the last one, and never fails when
  -- a reference is there beside those of the opens.
  pub decref_lem :
      (ops : Vops D)
      → Reclaims ops
      → (v : ℕ) (s : VfsState D) → Sound s
      → opens s v < refs s v
      → (s' : VfsState D) × (decref ops v s ≡ ok s') × Dropped s s' v
  unfolding decref check
  decref_lem ops reclaims v s w more =
      let lock = w.locked v (omega (arith, more)) in
      let usable = w.usable v (omega (arith, more)) in
      elim (dec_lt 1 (refs s v)) [
        | yes many ↦ (
          counted s v (refs s v - 1) (opens s v),
          ground (arith, lock, many),
          record {
            sound =
                Sound-put s v (refs s v - 1) (opens s v) w (omega (arith, more))
                  (omega (arith, more));
            by_refs = λ u. elim (refs-put s v (refs s v - 1) (opens s v) u) [
              | inl (e, p, q) ↦ omega (arith, p, q, ap (refs s) e, many)
              | inr (p, q) ↦ omega (arith, p, q)
            ];
            by_opens = λ u. elim (opens-put s v (refs s v - 1) (opens s v) u) [
              | inl (e, p, q) ↦ omega (arith, p, q, ap (opens s) e)
              | inr (p, q) ↦ omega (arith, p, q)
            ];
            same_cwd = refl;
            same_bootfs = refl;
            same_fs = λ u pos. fs_kept s v (refs s v - 1) (opens s v) u;
          },
        )
        | no last ↦
            let (c, s', e, d) =
              reclaims v s w (omega (arith, more, last)) (omega (arith, more, last)) in
            (s', ground (arith, lock, usable, more, last, e), d)
      ]

  -- Two changes in a row.
  pub then-Changes :
      {s s1 s2 : VfsState D} {g h g1 h1 k l : ℕ → ℕ}
      → Changes s s1 g h
      → Changes s1 s2 g1 h1
      → ((u : ℕ) → g u + g1 u ≡ k u)
      → ((u : ℕ) → h u + h1 u ≡ l u)
      → Changes s s2 k l
  then-Changes a b e f = record {
    sound = b.sound;
    by_refs = λ u. omega (arith, a.by_refs u, b.by_refs u, e u);
    by_opens = λ u. omega (arith, a.by_opens u, b.by_opens u, f u);
    same_cwd = b.same_cwd ∙ a.same_cwd;
    same_bootfs = b.same_bootfs ∙ a.same_bootfs;
    same_fs = λ u pos. b.same_fs u (omega (arith, pos, a.by_refs u)) ∙ a.same_fs u pos;
  }

  -- A change after which a reference is dropped.
  pub then-Dropped :
      {s s1 s2 : VfsState D} {g k h : ℕ → ℕ} {v : ℕ}
      → Changes s s1 g h
      → Dropped s1 s2 v
      → ((u : ℕ) → g u ≡ k u + one v u)
      → Changes s s2 k h
  then-Dropped {v = v} a b e = record {
    sound = b.sound;
    by_refs = λ u. omega (arith, a.by_refs u, b.by_refs u, e u);
    by_opens = λ u. omega (arith, a.by_opens u, b.by_opens u);
    same_cwd = b.same_cwd ∙ a.same_cwd;
    same_bootfs = b.same_bootfs ∙ a.same_bootfs;
    same_fs =
        λ u pos. b.same_fs u (omega (arith, pos, a.by_refs u, b.by_refs u, e u)) ∙ a.same_fs u pos;
  }

  -- VOP_* on a vnode with a reference passes vnode_check.
  pub vop-live {ℓ} :
      {A : Type ℓ} (v : ℕ) (op : VfsState D → Run A) (s : VfsState D)
      → Sound s
      → 0 < refs s v
      → vop v op s ≡ op s
  unfolding check
  vop-live v op s w live = ground (arith, w.locked v live, w.usable v live, live)

  pub unchanged : (s : VfsState D) → Sound s → Changes s s nil nil
  unchanged s w = record {
    sound = w;
    by_refs = λ u. omega arith;
    by_opens = λ u. omega arith;
    same_cwd = refl;
    same_bootfs = refl;
    same_fs = λ u pos. refl;
  }
