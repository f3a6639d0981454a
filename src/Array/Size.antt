-- ===== src/Array/Size.antt =====
-- os161/kern/lib/array.c: array_preallocate and array_setsize, as operations on the list of pointers
-- that an array holds.
use azurespider.Prelude.{
  ℕ, zero, suc, ◌*◌, ◌/◌, ◌%◌, ◌^◌, ◌≤◌, ◌<◌, ◌≡◌, refl, sym, subst, ap, ◌∙◌, ◌⊎◌, inl, inr, Bool,
  true, false, Bool-cases, Option, none, some, List, [], ◌∷◌, arith, ltb, leb, length,
  length-replicate, take, replicate, Run, ok, dec_lt, ◌==◌, ◌&&◌,
}
use azurespider.Errno.{Code, enomem}
use azurespider.Array.{Array, block, is_null, grow_max, preallocate, setsize, add}
use azurespider.Array.Bounds.{IsValid, contents, grow_max_lem, grow_max-enough, copy_cells_lem}

pub kept : (t m : ℕ) → (0 < t) ⊎ (m ≤ 16) → (t == 0 && ltb 16 m) ≡ false
kept t m h = ground arith

module _ {ℓ} {A : Type ℓ} where
  -- What a call that may need memory comes to: kmalloc refuses and the array is as before, or it
  -- returns 0 with a valid array.
  abbrev pub Resized : (ℕ → Bool) → Array A → (Array A → Type ℓ) → Run (Code × Array A) → Type ℓ
  Resized kmalloc a P m =
      ((n : ℕ) × (kmalloc n ≡ false) × (m ≡ ok (some enomem, a)))
      ⊎ ((a' : Array A) × (m ≡ ok (none, a')) × IsValid a' × P a')

  preallocate_at :
      (kmalloc : ℕ → Bool) (junk : A) (a : Array A) (t m : ℕ)
      → IsValid a
      → grow_max t t a.max_ ≡ ok m
      → a.max_ ≤ m
      → m < 2 ^ 30
      → Resized kmalloc a
          (λ a'. (contents a' ≡ contents a) × (a'.num ≡ a.num) × (a'.max_ ≡ m))
          (preallocate kmalloc junk a t)
  unfolding preallocate
  preallocate_at kmalloc junk a t m v e lo hi = elim (Bool-cases (kmalloc (m * 4 % 2 ^ 32))) [
    | inl granted ↦
        let (w, c, same, l) =
          copy_cells_lem a.num (block a.v) (replicate (m * 4 % 2 ^ 32 / 4) junk)
            (omega (arith, v.num_in, v.room)) (rw length-replicate (omega (arith, v.num_in))) in
        inr (
          record a { max_ = m; v = some w },
          ground (arith, e, granted, c, v.num_in),
          record {
            num_in = omega (arith, v.num_in);
            room = rw (l, length-replicate) (omega arith);
            small = hi;
          },
          (same, refl, refl),
        )
    | inr refused ↦ inl (_, refused, ground (arith, e, refused, v.num_in))
  ]

  -- array_preallocate keeps every pointer, and without an error there is room for as many as were
  -- asked for.
  pub preallocate_lem :
      (kmalloc : ℕ → Bool) (junk : A) (a : Array A) (t : ℕ)
      → IsValid a
      → t < 2 ^ 29
      → Resized kmalloc a
          (λ a'. (contents a' ≡ contents a) × (a'.num ≡ a.num) × (t ≤ a'.max_))
          (preallocate kmalloc junk a t)
  preallocate_lem kmalloc junk a t v small = elim (dec_lt a.max_ t) [
    | yes lt ↦
        let (m, e, lo, up, hi) = grow_max_lem t t a.max_ (omega arith) small (omega arith) in
        elim (preallocate_at kmalloc junk a t m v e up (omega arith)) [
          | inl r ↦ inl r
          | inr (a', e', v', (same, num, max)) ↦ inr (a', e', v', (same, num, omega (arith, max)))
        ]
    | no ge ↦
        elim (preallocate_at kmalloc junk a t a.max_ v (grow_max-enough t t a.max_ (omega arith))
          (omega arith) v.small) [
            | inl r ↦ inl r
            | inr (a', e', v', (same, num, max)) ↦ inr (a', e', v', (same, num, omega (arith, max)))
          ]
  ]

  pub take_shorter : (m n : ℕ) (xs : List A) → m ≤ n → take m (take n xs) ≡ take m xs
  take_shorter zero n xs h = refl
  take_shorter (suc m) zero xs h = absurd (omega arith)
  take_shorter (suc m) (suc n) [] h = refl
  take_shorter (suc m) (suc n) (x ∷ xs) h = ap (◌∷◌ x) (take_shorter m n xs (omega arith))

  -- array_setsize to more than there is keeps the pointers in front of the new ones.
  pub setsize_larger :
      (kmalloc : ℕ → Bool) (junk : A) (a : Array A) (t : ℕ)
      → IsValid a
      → a.num ≤ t
      → t < 2 ^ 29
      → 0 < t
      → Resized kmalloc a
          (λ a'. (take a.num (contents a') ≡ contents a) × (a'.num ≡ t))
          (setsize kmalloc junk a t)
  unfolding setsize
  setsize_larger kmalloc junk a t v le small pos = elim (dec_lt a.max_ t) [
    | yes lt ↦ elim (preallocate_lem kmalloc junk a t v small) [
      | inl (n, refused, e) ↦ inl (n, refused, ground (arith, e, v.num_in))
      | inr (a1, e, v1, (same, num, max)) ↦ inr (
        record a1 { num = t },
        ground (arith, e, v.num_in),
        record { num_in = max; room = v1.room; small = v1.small },
        (
          take_shorter a.num t (block a1.v) le
              ∙ subst (λ n. take n (block a1.v) ≡ contents a) num same,
          refl,
        ),
      )
    ]
    | no ge ↦ inr (
      record a { num = t },
      ground (arith, v.num_in),
      record { num_in = omega arith; room = v.room; small = v.small },
      (take_shorter a.num t (block a.v) le, refl),
    )
  ]

  not-null : (v : Option (List A)) → 0 < length (block v) → is_null v ≡ false
  not-null none h = absurd (omega arith)
  not-null (some cells) h = refl

  setsize_free :
      (kmalloc : ℕ → Bool) (junk : A) (a : Array A)
      → IsValid a
      → 16 < a.max_
      → setsize kmalloc junk a 0 ≡ ok (none, record { num = 0; max_ = 0; v = none })
  unfolding setsize
  setsize_free kmalloc junk a v big = ground (arith, not-null a.v (omega (arith, v.room)), v.num_in)

  setsize_keep :
      (kmalloc : ℕ → Bool) (junk : A) (a : Array A) (t : ℕ)
      → IsValid a
      → t ≤ a.num
      → (t == 0 && ltb 16 a.max_) ≡ false
      → setsize kmalloc junk a t ≡ ok (none, record a { num = t })
  unfolding setsize
  setsize_keep kmalloc junk a t v le why =
      let within : leb a.num a.max_ ≡ true = ground (arith, v.num_in) in
      let fits : ltb a.max_ t ≡ false = ground (arith, v.num_in) in rw (within, fits, why)

  -- array_setsize to no more than there are never fails, whatever kmalloc does, and drops the
  -- pointers at the end.
  pub setsize_smaller :
      (kmalloc : ℕ → Bool) (junk : A) (a : Array A) (t : ℕ)
      → IsValid a
      → t ≤ a.num
      → (a' : Array A) × (setsize kmalloc junk a t ≡ ok (none, a'))
        × IsValid a'
        × (contents a' ≡ take t (contents a))
  setsize_smaller kmalloc junk a zero v le = elim (dec_lt 16 a.max_) [
    | yes big ↦ (
      record { num = 0; max_ = 0; v = none },
      setsize_free kmalloc junk a v big,
      omega arith,
      refl,
    )
    | no few ↦ (
      record a { num = 0 },
      setsize_keep kmalloc junk a 0 v le (kept 0 a.max_ (inr (omega arith))),
      record { num_in = omega arith; room = v.room; small = v.small },
      refl,
    )
  ]
  setsize_smaller kmalloc junk a (suc t) v le = (
    record a { num = suc t },
    setsize_keep kmalloc junk a (suc t) v le (kept (suc t) a.max_ (inl (omega arith))),
    record { num_in = omega (arith, v.num_in); room = v.room; small = v.small },
    sym (take_shorter (suc t) a.num (block a.v) le),
  )

  -- Once array_setsize to 0 has given a block of more than 16 cells back, the next array_add needs
  -- memory again: where kmalloc refuses, it fails, although the array had room before.
  pub setsize_zero_forgets :
      (kmalloc : ℕ → Bool) (junk : A) (a : Array A) (x : A)
      → IsValid a
      → 16 < a.max_
      → kmalloc 8 ≡ false
      → (a' : Array A) × (setsize kmalloc junk a 0 ≡ ok (none, a'))
        × (add kmalloc junk a' x ≡ ok (some enomem, a'))
  unfolding add setsize preallocate grow_max
  setsize_zero_forgets kmalloc junk a x v big refused = (
    record { num = 0; max_ = 0; v = none },
    setsize_free kmalloc junk a v big,
    ground (arith, refused),
  )
