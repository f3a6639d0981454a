-- ===== src/Bitmap/Alloc.antt =====
-- os161/kern/lib/bitmap.c: bitmap_alloc finds the first clear bit, and bitmap_create.
use azurespider.Prelude.{
  ℕ, zero, suc, ◌+◌, ◌*◌, ◌/◌, ◌%◌, ◌<◌, ◌≡◌, refl, ◌∙◌, ◌⊎◌, inl, inr, true, false, ◌||◌, none,
  some, arith, ◌==◌, get_elem?, set, ok, dec_lt, ℕ_discrete, subst₂,
}
use azurespider.Errno.{enospc}
use azurespider.Bitmap.{Bitmap, words, word_isset, word_mark, alloc_from, alloc}
use azurespider.Bitmap.Words.{word_mark-lt, word_isset_full, IsLowest, find_clear_lem}
use azurespider.Bitmap.Bits.{word_at, bit, IsValid, get_elem?-get_or, bit-mark, write-IsValid}

-- What a successful bitmap_alloc leaves: it took the lowest clear bit.
pub record Took (b : Bitmap) (i : ℕ) (b' : Bitmap) : Type 0 where
  pub in_bits : i < b.nbits
  pub was_clear : bit b i ≡ false
  pub lowest : (j : ℕ) → j < i → bit b j ≡ true
  pub valid : IsValid b'
  pub nbits_kept : b'.nbits ≡ b.nbits
  pub bits : (j : ℕ) → bit b' j ≡ (i == j || bit b j)

module _ (b : Bitmap) (v : IsValid b) where
  bit_in : (ix j : ℕ) → j / 8 ≡ ix → bit b j ≡ word_isset (word_at b ix) (j % 8)
  bit_in ix j e = rw e

  bit_at : (ix o : ℕ) → o < 8 → bit b (ix * 8 + o) ≡ word_isset (word_at b ix) o
  bit_at ix o lt =
      let p : (ix * 8 + o) / 8 ≡ ix = omega arith in
      let q : (ix * 8 + o) % 8 ≡ o = omega arith in rw (p, q)

  -- The clear bit that the inner loop finds in word ix is one of the bitmap's.
  found-in : (ix o : ℕ) → ix < words b.nbits → IsLowest (word_at b ix) o → ix * 8 + o < b.nbits
  found-in ix o hi low = elim (dec_lt (ix * 8 + o) b.nbits) [
    | yes lt ↦ lt
    | no ge ↦ ground (
      arith,
      v.leftover (ix * 8 + o) (omega arith) (omega (arith, low.in_byte)),
      bit_at ix o low.in_byte,
      low.clear,
    )
  ]

  below-found :
      (ix o : ℕ)
      → ((j : ℕ) → j < ix * 8 → bit b j ≡ true)
      → IsLowest (word_at b ix) o
      → (j : ℕ) → j < ix * 8 + o
      → bit b j ≡ true
  below-found ix o before low j lt = elim (dec_lt j (ix * 8)) [
    | yes early ↦ before j early
    | no late ↦
        bit_in ix j (omega (arith, low.in_byte)) ∙ low.below (j % 8) (omega (arith, low.in_byte))
  ]

  Took-at :
      (i : ℕ)
      → i < b.nbits
      → bit b i ≡ false
      → ((j : ℕ) → j < i → bit b j ≡ true)
      → Took b i (record b { v = set b.v (i / 8) (word_mark (word_at b (i / 8)) (i % 8)) })
  Took-at i lt clear lowest = record {
    in_bits = lt;
    was_clear = clear;
    lowest = lowest;
    valid =
        write-IsValid b i v lt _ (word_mark-lt _ _ (v.bytes (i / 8)) (omega arith))
          (λ j past used. ground (arith, bit-mark b i v lt j));
    nbits_kept = refl;
    bits = bit-mark b i v lt;
  }

  took :
      (ix o : ℕ)
      → ix < words b.nbits
      → ((j : ℕ) → j < ix * 8 → bit b j ≡ true)
      → IsLowest (word_at b ix) o
      → Took b (ix * 8 + o) (record b { v = set b.v ix (word_mark (word_at b ix) o) })
  took ix o hi before low =
      subst₂ (λ k m. Took b (ix * 8 + o) (record b { v = set b.v k (word_mark (word_at b k) m) }))
        {x = (ix * 8 + o) / 8} {y = ix} {u = (ix * 8 + o) % 8} (omega (arith, low.in_byte))
        (omega (arith, low.in_byte))
        (Took-at (ix * 8 + o) (found-in ix o hi low) (bit_at ix o low.in_byte ∙ low.clear)
          (below-found ix o before low))

  read-word : (ix : ℕ) → ix < words b.nbits → get_elem? b.v ix ≡ some (word_at b ix)
  read-word ix lt = get_elem?-get_or b.v ix 0 (omega (arith, v.room))

  full-word :
      (ix : ℕ)
      → word_at b ix ≡ 255
      → ((j : ℕ) → j < ix * 8 → bit b j ≡ true)
      → (j : ℕ) → j < (ix + 1) * 8
      → bit b j ≡ true
  full-word ix full before j lt = elim (dec_lt j (ix * 8)) [
    | yes early ↦ before j early
    | no late ↦ bit_in ix j (omega arith) ∙ rw full (word_isset_full (j % 8) (omega arith))
  ]

  alloc_from_lem :
      (rounds ix : ℕ)
      → ix + rounds ≡ words b.nbits
      → ((j : ℕ) → j < ix * 8 → bit b j ≡ true)
      → ((i : ℕ) × (b' : Bitmap) × (alloc_from rounds ix b ≡ ok (none, i, b')) × Took b i b')
        ⊎ ((alloc_from rounds ix b ≡ ok (some enospc, 0, b))
            × ((j : ℕ) → j < b.nbits → bit b j ≡ true))
  unfolding alloc_from
  alloc_from_lem zero ix e before = inr (refl, λ j lt. before j (omega (arith, v.small)))
  alloc_from_lem (suc rounds) ix e before = elim (ℕ_discrete (word_at b ix) 255) [
    | yes full ↦ elim (alloc_from_lem rounds (ix + 1) (omega arith) (full-word ix full before)) [
      | inl (i, b', r, t) ↦ inl (i, b', ground (arith, read-word ix (omega arith), full, r), t)
      | inr (r, all) ↦ inr (ground (arith, read-word ix (omega arith), full, r), all)
    ]
    | no free ↦
        let (o, eo, low) = find_clear_lem (word_at b ix) (v.bytes ix) free in
        inl (
          ix * 8 + o,
          record b { v = set b.v ix (word_mark (word_at b ix) o) },
          ground (
            arith,
            read-word ix (omega arith),
            free,
            eo,
            found-in ix o (omega arith) low,
            v.small,
          ),
          took ix o (omega arith) before low,
        )
  ]

  -- bitmap_alloc returns the lowest clear bit, marks it and no other, and never trips its
  -- assertions; ENOSPC means that every bit is in use.
  pub alloc_lem :
      ((i : ℕ) × (b' : Bitmap) × (alloc b ≡ ok (none, i, b')) × Took b i b')
      ⊎ ((alloc b ≡ ok (some enospc, 0, b)) × ((j : ℕ) → j < b.nbits → bit b j ≡ true))
  unfolding alloc
  alloc_lem = alloc_from_lem (words b.nbits) 0 (omega arith) (λ j lt. absurd (omega arith))
