-- ===== src/Queue/Refine.antt =====
-- os161/kern/lib/queue.c: the calls of a queue, as operations on the list of pointers that it holds.
use azurespider.Prelude.{
  ℕ, suc, ◌+◌, ◌*◌, ◌%◌, ◌^◌, ◌≤◌, ◌<◌, ◌≡◌, refl, sym, subst, ◌∙◌, ap, ◌⊎◌, inl, inr, ◌≢◌, ◌↔◌,
  Bool, true, false, Bool-cases, none, some, List, [], ◌∷◌, ◌++◌, arith, ◌==◌, length, dec_lt, ok,
  panic,
}
use azurespider.Errno.{Errno}
use azurespider.Queue.{
  Queue, create, is_empty, put, grow, addtail_at, addtail, preallocate, remhead, destroy,
}
use azurespider.Queue.Holds.{Holds, ring_apart, ring_shift, ring_start, ring_round}
use azurespider.Queue.Grow.{
  Added, Grown, put-Holds, addtail_at-room, next_at, fresh-Holds, grow_lem,
}

module _ {ℓ} {A : Type ℓ} where
  module _ (d : ℕ) (kmalloc : ℕ → Bool) (junk : A) (q q1 : Queue A) (x : A) where
    addtail_at-refused :
        {e : Errno}
        → 0 < q.size
        → (q.nextwrite + 1) % q.size ≡ q.nextread
        → grow (addtail_at d kmalloc junk) kmalloc junk q (q.size + 1) ≡ ok (some e, q1)
        → addtail_at (suc d) kmalloc junk q x ≡ ok (some e, q1)
    unfolding addtail_at
    addtail_at-refused pos full g = ground (arith, g)

    addtail_at-grown :
        0 < q.size
        → (q.nextwrite + 1) % q.size ≡ q.nextread
        → grow (addtail_at d kmalloc junk) kmalloc junk q (q.size + 1) ≡ ok (none, q1)
        → addtail_at (suc d) kmalloc junk q x ≡ put q1 x ((q1.nextwrite + 1) % q1.size)
    unfolding addtail_at
    addtail_at-grown pos full g = ground (arith, g)

  -- With no free cell the next index is the head's.
  next-full :
      (q : Queue A) (xs : List A)
      → Holds q xs
      → suc (length xs) ≡ q.size
      → (q.nextwrite + 1) % q.size ≡ q.nextread
  next-full q xs h full =
      next_at q xs h
      ∙ ap (λ n. (q.nextread + n) % q.size) full
      ∙ ring_round q.size q.nextread h.read_in

  addtail-full :
      (kmalloc : ℕ → Bool) (junk : A) (q : Queue A) (xs : List A) (x : A)
      → Holds q xs
      → suc (length xs) ≡ q.size
      → q.size < 2 ^ 29
      → Grown kmalloc q (xs ++ x ∷ []) (q.size + 1) (addtail_at 2 kmalloc junk q x)
  addtail-full kmalloc junk q xs x h full small =
      elim (grow_lem 0 kmalloc junk q xs (q.size + 1) h (omega arith) (omega arith)) [
        | inl (n, refused, e) ↦ inl (
          n,
          refused,
          addtail_at-refused 1 kmalloc junk q q x (omega (arith, h.fits)) (next-full q xs h full) e,
        )
        | inr (q1, e1, h1, lo, hi, granted) ↦
            let (q2, e2, h2, s2) = put-Holds q1 xs x h1 (omega arith) in
            inr (
              q2,
              addtail_at-grown 1 kmalloc junk q q1 x (omega (arith, h.fits)) (next-full q xs h full)
                    e1
                  ∙ e2,
              h2,
              omega (arith, s2),
              omega (arith, s2),
              granted,
            )
      ]

  -- q_addtail into a free cell needs no memory.
  pub addtail-room :
      (kmalloc : ℕ → Bool) (junk : A) (q : Queue A) (xs : List A) (x : A)
      → Holds q xs
      → suc (length xs) < q.size
      → Added q (xs ++ x ∷ []) (addtail kmalloc junk q x)
  unfolding addtail
  addtail-room kmalloc junk q xs x h room = addtail_at-room 1 kmalloc junk q xs x h room

  -- q_addtail with a free cell puts the pointer at the end and succeeds. With none it either gets a
  -- larger block and does the same, or returns ENOMEM and leaves the queue alone, which happens only
  -- if kmalloc refuses.
  pub addtail_lem :
      (kmalloc : ℕ → Bool) (junk : A) (q : Queue A) (xs : List A) (x : A)
      → Holds q xs
      → q.size < 2 ^ 29
      → ((suc (length xs) < q.size) × Added q (xs ++ x ∷ []) (addtail kmalloc junk q x))
        ⊎ ((suc (length xs) ≡ q.size)
            × Grown kmalloc q (xs ++ x ∷ []) (q.size + 1) (addtail kmalloc junk q x))
  unfolding addtail
  addtail_lem kmalloc junk q xs x h small = elim (dec_lt (suc (length xs)) q.size) [
    | yes room ↦ inl (room, addtail_at-room 1 kmalloc junk q xs x h room)
    | no full ↦
        let e : suc (length xs) ≡ q.size = omega (arith, h.fits) in
        inr (e, addtail-full kmalloc junk q xs x h e small)
  ]

  -- q_empty tells exactly whether no pointer is held.
  pub is_empty_iff : (q : Queue A) (xs : List A) → Holds q xs → (is_empty q ≡ true) ↔ (xs ≡ [])
  unfolding is_empty
  is_empty_iff q [] h = (λ _. refl, λ _. empty)
    where
      empty : (q.nextwrite == q.nextread) ≡ true
      empty = rw (h.ends, ring_start q.size q.nextread h.read_in) (ground arith)
  is_empty_iff q (x ∷ xs) h = (λ e. absurd (apart (ground (arith, e))), λ e. cc)
    where
      apart : q.nextwrite ≢ q.nextread
      apart =
          rw h.ends (ring_apart q.size q.nextread (suc (length xs)) h.read_in (omega arith) h.fits)

  -- q_remhead on a queue that holds a pointer returns the oldest one and keeps the others in order; the
  -- ring keeps its size.
  pub remhead_lem :
      (q : Queue A) (x : A) (xs : List A)
      → Holds q (x ∷ xs)
      → (q' : Queue A) × (remhead q ≡ ok (x, q')) × Holds q' xs × (q'.size ≡ q.size)
  unfolding remhead
  remhead_lem q x xs h =
      (q', ground (arith, h.items.0, h.read_in, is_empty_iff q (x ∷ xs) h), held, refl)
    where
      q' : Queue A
      q' = record q { nextread = (q.nextread + 1) % q.size }

      held : Holds q' xs
      held = record {
        room = h.room;
        is_int = h.is_int;
        read_in = omega (arith, h.read_in);
        fits = omega (arith, h.fits);
        ends = h.ends ∙ sym (ring_shift q.size q.nextread (length xs));
        items = h.items.1;
      }

  pub remhead-empty : (q : Queue A) → Holds q [] → remhead q ≡ panic
  unfolding remhead
  remhead-empty q h = ground (arith, h.read_in, is_empty_iff q [] h)

  -- q_preallocate changes no contents, and without an error there are at least so many cells.
  pub preallocate-Grown :
      (kmalloc : ℕ → Bool) (junk : A) (q : Queue A) (xs : List A) (t : ℕ)
      → Holds q xs
      → t ≤ 2 ^ 29
      → ((t ≤ q.size) × (preallocate kmalloc junk q t ≡ ok (none, q)))
        ⊎ ((q.size < t) × Grown kmalloc q xs t (preallocate kmalloc junk q t))
  unfolding preallocate addtail
  preallocate-Grown kmalloc junk q xs t h small = elim (dec_lt q.size t) [
    | yes more ↦
        let same : preallocate kmalloc junk q t ≡ grow (addtail kmalloc junk) kmalloc junk q t =
          ground (arith, h.read_in) in
        inr (
          more,
          subst (Grown kmalloc q xs t) (sym same) (grow_lem 1 kmalloc junk q xs t h more small),
        )
    | no enough ↦ inl (omega arith, ground (arith, h.read_in))
  ]

  -- q_create makes an empty queue of the size asked for, or returns NULL where kmalloc refuses.
  pub create-Holds :
      (kmalloc : ℕ → Bool) (junk : A) (size : ℕ)
      → 0 < size
      → size < 2 ^ 30
      → ((n : ℕ) × (kmalloc n ≡ false) × (create kmalloc junk size ≡ none))
        ⊎ ((q : Queue A) × (create kmalloc junk size ≡ some q) × Holds q [] × (q.size ≡ size))
  unfolding create
  create-Holds kmalloc junk size pos small = elim (Bool-cases (kmalloc 16)) [
    | inl a ↦ elim (Bool-cases (kmalloc (size * 4 % 2 ^ 32))) [
      | inl b ↦ inr (_, ground (arith, a, b), fresh-Holds junk size pos small, refl)
      | inr b ↦ inl (_, b, ground (arith, a, b))
    ]
    | inr a ↦ inl (_, a, ground (arith, a))
  ]

  -- q_destroy panics exactly if a pointer is still held.
  pub destroy_lem : (q : Queue A) (xs : List A) → Holds q xs → (destroy q ≡ ok tt) ↔ (xs ≡ [])
  unfolding destroy
  destroy_lem q xs h = (
    λ e. (is_empty_iff q xs h).0 (ground (arith, e)),
    λ e. ground (arith, (is_empty_iff q xs h).1 e),
  )
