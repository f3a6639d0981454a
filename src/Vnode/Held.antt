-- ===== src/Vnode/Held.antt =====
-- os161/kern/fs/vfs/vnode.c: references that are taken and given back while somebody else holds one.
use azurespider.Prelude.{
  ℕ, zero, suc, ◌+◌, ◌-◌, ◌^◌, ◌<◌, ◌≡◌, ◌≢◌, refl, ap, subst, ◌∙◌, true, if_ne, if_self, arith,
  Run, ok, ◌>>=◌,
}
use azurespider.Vnode.{Vnode, VfsState, Vops, put_vnode, incref, decref}

module _ {D : Type 0} (ops : Vops D) (v : ℕ) where
  -- n calls of vnode_incref, and n calls of vnode_decref.
  abbrev pub take_refs : ℕ → VfsState D → Run (VfsState D)
  take_refs zero s = ok s
  take_refs (suc n) s = incref v s >>= λ s'. take_refs n s'

  abbrev pub give_back : ℕ → VfsState D → Run (VfsState D)
  give_back zero s = ok s
  give_back (suc n) s = decref ops v s >>= λ s'. give_back n s'

  -- From s to s' only the reference count of v may have changed, and it is r.
  pub record Counted (s s' : VfsState D) (r : ℕ) : Type 0 where
    pub here : s'.vnodes v ≡ record (s.vnodes v) { vn_refcount = r }
    pub others : (u : ℕ) → v ≢ u → s'.vnodes u ≡ s.vnodes u
    pub same_cwd : s'.t_cwd ≡ s.t_cwd
    pub same_bootfs : s'.bootfs_vnode ≡ s.bootfs_vnode
    pub same_disk : s'.disk ≡ s.disk

  recounted :
      (s s' : VfsState D) (r q : ℕ)
      → Counted s s' r
      → Counted s (put_vnode s' v (record (s'.vnodes v) { vn_refcount = q })) q
  recounted s s' r q c = record {
    here =
        if_self v (record (s'.vnodes v) { vn_refcount = q }) (s'.vnodes v)
        ∙ ap (λ (w : Vnode). record w { vn_refcount = q }) c.here;
    others = λ u ne.
        if_ne v u (record (s'.vnodes v) { vn_refcount = q }) (s'.vnodes u) ne ∙ c.others u ne;
    same_cwd = c.same_cwd;
    same_bootfs = c.same_bootfs;
    same_disk = c.same_disk;
  }

  abbrev with_count : VfsState D → ℕ → VfsState D
  with_count s q = put_vnode s v (record (s.vnodes v) { vn_refcount = q })

  incref_step :
      (s : VfsState D)
      → (s.vnodes v).vn_countlock ≡ true
      → (s.vnodes v).vn_refcount + 1 < 2 ^ 31
      → incref v s ≡ ok (with_count s ((s.vnodes v).vn_refcount + 1))
  unfolding incref
  incref_step s lock room = ground (arith, lock, room)

  decref_step :
      (s : VfsState D)
      → (s.vnodes v).vn_countlock ≡ true
      → 1 < (s.vnodes v).vn_refcount
      → decref ops v s ≡ ok (with_count s ((s.vnodes v).vn_refcount - 1))
  unfolding decref
  decref_step s lock held = ground (arith, lock, held)

  take_refs_lem :
      (n r : ℕ) (s s' : VfsState D)
      → (s.vnodes v).vn_countlock ≡ true
      → r + n < 2 ^ 31
      → Counted s s' r
      → (t : VfsState D) × (take_refs n s' ≡ ok t) × Counted s t (r + n)
  take_refs_lem zero r s s' lock room c =
      (s', refl, subst (Counted s s') {x = r} {y = r + 0} (omega arith) c)
  take_refs_lem (suc n) r s s' lock room c =
      let count : (s'.vnodes v).vn_refcount ≡ r = ap (λ w. w.vn_refcount) c.here in
      let lock' : (s'.vnodes v).vn_countlock ≡ true = ap (λ w. w.vn_countlock) c.here ∙ lock in
      let step = incref_step s' lock' (omega (arith, count, room)) in
      let next : Counted s (with_count s' ((s'.vnodes v).vn_refcount + 1)) (r + 1) =
        subst (Counted s (with_count s' ((s'.vnodes v).vn_refcount + 1)))
          {x = (s'.vnodes v).vn_refcount + 1} (omega (arith, count))
          (recounted s s' r ((s'.vnodes v).vn_refcount + 1) c) in
      let (t, e, d) =
        take_refs_lem n (r + 1) s (with_count s' ((s'.vnodes v).vn_refcount + 1)) lock
          (omega (arith, room)) next in
      (t, rw step e, subst (Counted s t) {x = r + 1 + n} {y = r + suc n} (omega arith) d)

  give_back_lem :
      (n r : ℕ) (s s' : VfsState D)
      → (s.vnodes v).vn_countlock ≡ true
      → 0 < r
      → Counted s s' (r + n)
      → (t : VfsState D) × (give_back n s' ≡ ok t) × Counted s t r
  give_back_lem zero r s s' lock live c =
      (s', refl, subst (Counted s s') {x = r + 0} {y = r} (omega arith) c)
  give_back_lem (suc n) r s s' lock live c =
      let count : (s'.vnodes v).vn_refcount ≡ r + suc n = ap (λ w. w.vn_refcount) c.here in
      let lock' : (s'.vnodes v).vn_countlock ≡ true = ap (λ w. w.vn_countlock) c.here ∙ lock in
      let step = decref_step s' lock' (omega (arith, count, live)) in
      let next : Counted s (with_count s' ((s'.vnodes v).vn_refcount - 1)) (r + n) =
        subst (Counted s (with_count s' ((s'.vnodes v).vn_refcount - 1)))
          {x = (s'.vnodes v).vn_refcount - 1} (omega (arith, count))
          (recounted s s' (r + suc n) ((s'.vnodes v).vn_refcount - 1) c) in
      let (t, e, d) =
        give_back_lem n r s (with_count s' ((s'.vnodes v).vn_refcount - 1)) lock live next in
      (t, rw step e, d)

  -- While a vnode has a reference, any number of references that are taken with vnode_incref and given
  -- back with vnode_decref, with the count in the range of an int, leave every vnode and everything
  -- else as it was: the vnode is not reclaimed, whatever the file system would do then.
  pub give_back-take_refs :
      (n : ℕ) (s : VfsState D)
      → (s.vnodes v).vn_countlock ≡ true
      → 0 < (s.vnodes v).vn_refcount
      → (s.vnodes v).vn_refcount + n < 2 ^ 31
      → (t : VfsState D) × ((take_refs n s >>= λ s'. give_back n s') ≡ ok t)
        × Counted s t (s.vnodes v).vn_refcount
  give_back-take_refs n s lock live room =
      let now : Counted s s (s.vnodes v).vn_refcount = record {
        here = refl;
        others = λ u ne. refl;
        same_cwd = refl;
        same_bootfs = refl;
        same_disk = refl;
      } in
      let (s1, e, c) = take_refs_lem n (s.vnodes v).vn_refcount s s lock room now in
      let (t, e1, d) = give_back_lem n (s.vnodes v).vn_refcount s s1 lock live c in (t, rw e e1, d)
