-- ===== src/Queue/Grow.antt =====
-- os161/kern/lib/queue.c: q_addtail with room, and q_grow.
use azurespider.Prelude.{
  true, ℕ, zero, suc, ◌+◌, ◌*◌, ◌%◌, ◌^◌, ◌≤◌, ◌<◌, ◌≡◌, refl, sym, ◌∙◌, ap, ◌⊎◌, inl, inr, ◌≢◌,
  Bool, false, Bool-cases, none, some, List, [], ◌∷◌, ◌++◌, append_assoc, append-nil, arith, ltb,
  length, length-append, length-set, length-replicate, set, replicate, Run, ok,
}
use azurespider.Errno.{Code, enomem}
use azurespider.Queue.{Queue, cells, grow_size, put, copy, grow, addtail_at}
use azurespider.Queue.Holds.{Lies, Holds, Lies-set, ring_apart, ring_shift, ring_next, ring_start}

-- The doubled size is at least the target and less than twice the target, with no overflow.
grow_size_lem :
    (fuel n t : ℕ)
    → 0 < n
    → t ≤ n + fuel
    → n < 2 * t
    → t ≤ 2 ^ 29
    → (m : ℕ) × (grow_size fuel n t ≡ ok m) × (t ≤ m) × (m < 2 * t)
unfolding grow_size
grow_size_lem zero n t pos enough lt small = (n, ground arith, omega arith, lt)
grow_size_lem (suc f) n t pos enough lt small = elim (Bool-cases (ltb n t)) [
  | inl more ↦
      let (m, e, lo, hi) =
        grow_size_lem f (n * 2) t (omega arith) (ground arith) (ground arith) small in
      (m, ground arith, lo, hi)
  | inr done ↦ (n, ground arith, ground arith, lt)
]

cells_lem : (n : ℕ) → n < 2 ^ 30 → cells n ≡ n
cells_lem n h = omega arith

module _ {ℓ} {A : Type ℓ} where
  abbrev pub Added : Queue A → List A → Run (Code × Queue A) → Type ℓ
  Added q xs m = (q' : Queue A) × (m ≡ ok (none, q')) × Holds q' xs × (q'.size ≡ q.size)

  -- The cell behind the last free one is the head.
  pub next_at :
      (q : Queue A) (xs : List A)
      → Holds q xs
      → (q.nextwrite + 1) % q.size ≡ (q.nextread + suc (length xs)) % q.size
  next_at q xs h = rw h.ends (ring_next q.size q.nextread (length xs))

  pub put-Holds :
      (q : Queue A) (xs : List A) (x : A)
      → Holds q xs
      → suc (length xs) < q.size
      → Added q (xs ++ x ∷ []) (put q x ((q.nextwrite + 1) % q.size))
  unfolding put
  put-Holds q xs x h lt = (q', ground (arith, h.room), held, refl)
    where
      q' : Queue A
      q' = record q { data_ = set q.data_ q.nextwrite x; nextwrite = (q.nextwrite + 1) % q.size }

      held : Holds q' (xs ++ x ∷ [])
      held = record {
        room = rw (length-set q.data_ q.nextwrite x) h.room;
        is_int = h.is_int;
        read_in = h.read_in;
        fits = rw length-append (omega arith);
        ends =
            next_at q xs h ∙ ap (λ n. (q.nextread + n) % q.size) (rw length-append (omega arith));
        items =
            Lies-set q.data_ q.size q.nextwrite x q.nextread xs h.room h.read_in (h.fits) h.ends
              h.items;
      }

  pub addtail_at-room :
      (d : ℕ) (kmalloc : ℕ → Bool) (junk : A) (q : Queue A) (xs : List A) (x : A)
      → Holds q xs
      → suc (length xs) < q.size
      → Added q (xs ++ x ∷ []) (addtail_at (suc d) kmalloc junk q x)
  unfolding addtail_at
  addtail_at-room d kmalloc junk q xs x h lt =
      let (q', e, held, same) = put-Holds q xs x h lt in (q', ground (arith, e, apart), held, same)
    where
      apart : (q.nextwrite + 1) % q.size ≢ q.nextread
      apart =
          rw (next_at q xs h)
            (ring_apart q.size q.nextread (suc (length xs)) h.read_in (omega arith) lt)

  copy_lem :
      (d : ℕ) (kmalloc : ℕ → Bool) (junk : A) (fuel : ℕ) (olddata : List A) (osize i onw : ℕ)
      (ys : List A) (q : Queue A) (xs : List A)
      → i < osize
      → length ys < osize
      → length ys ≤ fuel
      → onw ≡ (i + length ys) % osize
      → Lies olddata osize i ys
      → Holds q xs
      → length xs + length ys < q.size
      → (q' : Queue A) × (copy (addtail_at (suc d) kmalloc junk) fuel olddata osize i onw q ≡ ok q')
        × Holds q' (xs ++ ys)
        × (q'.size ≡ q.size)
  unfolding copy
  copy_lem d kmalloc junk zero olddata osize i onw [] q xs hi lt enough e l h room =
      let stop : i ≡ onw = sym (e ∙ ring_start osize i hi) in
      (q, ground arith, rw append-nil h, refl)
  copy_lem d kmalloc junk zero olddata osize i onw (y ∷ ys) q xs hi lt enough e l h room =
      absurd (omega arith)
  copy_lem d kmalloc junk (suc f) olddata osize i onw [] q xs hi lt enough e l h room =
      let stop : i ≡ onw = sym (e ∙ ring_start osize i hi) in
      (q, ground arith, rw append-nil h, refl)
  copy_lem d kmalloc junk (suc f) olddata osize i onw (y ∷ ys) q xs hi lt enough e l h room =
      let (q1, e1, h1, s1) = addtail_at-room d kmalloc junk q xs y h (omega arith) in
      let (q2, e2, h2, s2) =
        copy_lem d kmalloc junk f olddata osize ((i + 1) % osize) onw ys q1 (xs ++ y ∷ [])
          (omega arith) (omega arith) (omega arith) (e ∙ sym (ring_shift osize i (length ys))) l.1
          h1 (rw (s1, length-append) (omega arith)) in
      let apart : i ≢ onw =
        λ p. ring_apart osize i (suc (length ys)) hi (omega arith) lt (sym (p ∙ e)) in
      (q2, ground (arith, l.0, e1, e2, apart), rw append_assoc at h2, s2 ∙ s1)

  -- What q_grow comes to: the request of memory is refused and nothing changes, or the queue holds
  -- the same pointers in at least as many cells as were asked for.
  abbrev pub Grown : (ℕ → Bool) → Queue A → List A → ℕ → Run (Code × Queue A) → Type ℓ
  Grown kmalloc q xs t m =
      ((n : ℕ) × (kmalloc n ≡ false) × (m ≡ ok (some enomem, q)))
      ⊎ ((q' : Queue A) × (m ≡ ok (none, q'))
          × Holds q' xs
          × (t ≤ q'.size)
          × (q'.size < 2 ^ 30)
          × ((n : ℕ) × (kmalloc n ≡ true)))

  pub fresh-Holds :
      (junk : A) (n : ℕ)
      → 0 < n
      → n < 2 ^ 30
      → Holds
          (record { size = n; nextwrite = 0; nextread = 0; data_ = replicate (cells n) junk })
          []
  fresh-Holds junk n pos small = record {
    room = rw (length-replicate, cells_lem n small) (omega arith);
    is_int = omega arith;
    read_in = pos;
    fits = pos;
    ends = sym (ring_start n 0 pos);
    items = tt;
  }

  -- The same, once the doubled size is known.
  grow_at :
      (d : ℕ) (kmalloc : ℕ → Bool) (junk : A) (q : Queue A) (xs : List A) (t m : ℕ)
      → Holds q xs
      → q.size < t
      → t ≤ m
      → m < 2 ^ 30
      → grow_size t q.size t ≡ ok m
      → Grown kmalloc q xs t (grow (addtail_at (suc d) kmalloc junk) kmalloc junk q t)
  unfolding grow
  grow_at d kmalloc junk q xs t m h lt lo hi e = elim (Bool-cases (kmalloc (m * 4 % 2 ^ 32))) [
    | inl granted ↦
        let (q', e', h', s') =
          copy_lem d kmalloc junk q.size q.data_ q.size q.nextread q.nextwrite xs _ [] h.read_in
            h.fits (omega (arith, h.fits)) h.ends h.items (fresh-Holds junk m (omega arith) hi)
            (omega (arith, h.fits)) in
        inr (
          q',
          ground (arith, e, granted, e'),
          h',
          omega (arith, s'),
          omega (arith, s'),
          (_, granted),
        )
    | inr refused ↦ inl (m * 4 % 2 ^ 32, refused, ground (arith, e, refused))
  ]

  pub grow_lem :
      (d : ℕ) (kmalloc : ℕ → Bool) (junk : A) (q : Queue A) (xs : List A) (t : ℕ)
      → Holds q xs
      → q.size < t
      → t ≤ 2 ^ 29
      → Grown kmalloc q xs t (grow (addtail_at (suc d) kmalloc junk) kmalloc junk q t)
  grow_lem d kmalloc junk q xs t h lt small =
      let (m, e, lo, hi) =
        grow_size_lem t q.size t (omega (arith, h.read_in)) (omega arith) (omega arith) small in
      grow_at d kmalloc junk q xs t m h lt lo (omega arith) e
