-- ===== src/Vnode/Opens.antt =====
-- os161/kern/fs/vfs/vnode.c: what vnode_incopen and vnode_decopen do to the counts of all vnodes.
use azurespider.Prelude.{ℕ, ◌+◌, ◌-◌, ◌^◌, ◌<◌, ◌≡◌, refl, ap, ◌∙◌, inl, inr, dec_lt, arith, ok}
use azurespider.Errno.{Code}
use azurespider.Vnode.{VfsState, Vops, check, incopen, decopen}
use azurespider.Vnode.Counts.{
  Sound, Changes, nil, one, refs, opens, counted, refs-put, opens-put, Sound-put, fs_kept,
  then-Changes,
}

module _ {D : Type 0} where
  -- vnode_incopen adds one open, for a vnode with a reference for it.
  pub incopen_lem :
      (v : ℕ) (s : VfsState D)
      → Sound s
      → opens s v < refs s v
      → opens s v + 1 < 2 ^ 31
      → (s' : VfsState D) × (incopen v s ≡ ok s') × Changes s s' nil (one v)
  unfolding incopen
  incopen_lem v s w more room =
      let lock = w.locked v (omega (arith, more)) in
      (
        counted s v (refs s v) (opens s v + 1),
        ground (arith, lock, room),
        record {
          sound =
              Sound-put s v (refs s v) (opens s v + 1) w (omega (arith, more))
                (omega (arith, more));
          by_refs = λ u. elim (refs-put s v (refs s v) (opens s v + 1) u) [
            | inl (e, p, q) ↦ omega (arith, p, q, ap (refs s) e)
            | inr (p, q) ↦ omega (arith, p, q)
          ];
          by_opens = λ u. elim (opens-put s v (refs s v) (opens s v + 1) u) [
            | inl (e, p, q) ↦ omega (arith, p, q, ap (opens s) e)
            | inr (p, q) ↦ omega (arith, p, q)
          ];
          same_cwd = refl;
          same_bootfs = refl;
          same_fs = λ u pos. fs_kept s v (refs s v) (opens s v + 1) u;
        },
      )

  -- What vop_close owes: it returns, with all counts as they were.
  abbrev pub Closes : Vops D → Type 0
  Closes ops =
      (v : ℕ) (s : VfsState D)
      → Sound s
      → 0 < refs s v
      → (c : Code) × (s' : VfsState D) × (ops.vop_close v s ≡ ok (c, s')) × Changes s s' nil nil

  -- The first half of vnode_decopen takes back an open that a change has brought.
  close-one :
      (s0 s : VfsState D) (g h : ℕ → ℕ) (v : ℕ)
      → Changes s0 s g (λ u. h u + one v u)
      → 0 < opens s v
      → Changes s0 (counted s v (refs s v) (opens s v - 1)) g h
  close-one s0 s g h v c some_open = record {
    sound =
        Sound-put s v (refs s v) (opens s v - 1) c.sound
          (omega (arith, c.sound.opened v, some_open)) (omega (arith, c.sound.opened v));
    by_refs = λ u. elim (refs-put s v (refs s v) (opens s v - 1) u) [
      | inl (e, p, q) ↦ omega (arith, p, q, ap (refs s) e, c.by_refs u)
      | inr (p, q) ↦ omega (arith, p, q, c.by_refs u)
    ];
    by_opens = λ u. elim (opens-put s v (refs s v) (opens s v - 1) u) [
      | inl (e, p, q) ↦ omega (arith, p, q, ap (opens s) e, c.by_opens u, some_open)
      | inr (p, q) ↦ omega (arith, p, q, c.by_opens u)
    ];
    same_cwd = c.same_cwd;
    same_bootfs = c.same_bootfs;
    same_fs = λ u pos. fs_kept s v (refs s v) (opens s v - 1) u ∙ c.same_fs u pos;
  }

  -- vnode_decopen takes back an open that a change has brought, and calls vop_close after the last.
  pub decopen_lem :
      (ops : Vops D)
      → Closes ops
      → (s0 s : VfsState D) (g h : ℕ → ℕ) (v : ℕ) → Changes s0 s g (λ u. h u + one v u)
      → 0 < opens s v
      → (s' : VfsState D) × (decopen ops v s ≡ ok s') × Changes s0 s' g h
  unfolding decopen check
  decopen_lem ops closes s0 s g h v c some_open =
      let s1 = counted s v (refs s v) (opens s v - 1) in
      let c1 = close-one s0 s g h v c some_open in
      let live : 0 < refs s v = omega (arith, c.sound.opened v, some_open) in
      let lock = c.sound.locked v live in
      let same_refs : refs s1 v ≡ refs s v = elim (refs-put s v (refs s v) (opens s v - 1) v) [
        | inl (e, p, q) ↦ p
        | inr (p, q) ↦ p
      ] in
      let live1 : 0 < refs s1 v = omega (arith, live, same_refs) in
      let lock1 = c1.sound.locked v live1 in
      let usable1 = c1.sound.usable v live1 in
      let (code, s2, r, c2) = closes v s1 c1.sound live1 in
      elim (dec_lt 0 (opens s1 v)) [
        | yes more ↦ (s1, ground (arith, lock, some_open, more), c1)
        | no last ↦ (
          s2,
          ground (arith, lock, some_open, last, lock1, usable1, live1, r),
          then-Changes c1 c2 (λ u. omega arith) λ u. omega arith,
        )
      ]
