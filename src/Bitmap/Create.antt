-- ===== src/Bitmap/Create.antt =====
-- os161/kern/lib/bitmap.c: bitmap_create.
use azurespider.Prelude.{
  ℕ, zero, suc, ◌+◌, ◌-◌, ◌*◌, ◌/◌, ◌%◌, ◌^◌, ◌≤◌, ◌<◌, ◌≡◌, refl, ◌⊎◌, inl, inr, Bool, true, false,
  ◌&&◌, Bool-cases, none, some, arith, ◌==◌, if◌then◌else◌, length-set, length-replicate, replicate,
  get_or, set, ok, dec_lt,
}
use azurespider.Bitmap.{Bitmap, words, mark_from, create, create_leftover}
use azurespider.Bitmap.Words.{word_isset_zero, word_isset-mark_from, mark_from-lt}
use azurespider.Bitmap.Bits.{word_at, bit, IsValid, get_elem?-get_or, get_or-set}

get_or-replicate : (n k : ℕ) → get_or {A = ℕ} (replicate n 0) k 0 ≡ 0
get_or-replicate zero k = refl
get_or-replicate (suc n) zero = refl
get_or-replicate (suc n) (suc k) = get_or-replicate n k

-- What a new bitmap is: valid, of the size asked for, with every bit clear.
pub record IsFresh (nbits : ℕ) (b : Bitmap) : Type 0 where
  pub valid : IsValid b
  pub sized : b.nbits ≡ nbits
  pub clear : (j : ℕ) → j < nbits → bit b j ≡ false

module _ (nbits : ℕ) (small : nbits + 8 ≤ 2 ^ 32) where
  even-IsFresh :
      nbits / 8 ≡ words nbits
      → IsFresh nbits (record { nbits = nbits; v = replicate (words nbits) 0 })
  even-IsFresh e = record {
    valid = record {
      small = small;
      room = rw length-replicate (omega arith);
      bytes = λ k. rw get_or-replicate (omega arith);
      leftover = λ i past within. absurd (omega arith);
    };
    sized = refl;
    clear = λ j lt. rw get_or-replicate (word_isset_zero (j % 8) (omega arith));
  }

  -- The last byte of a bitmap with leftover bits, which begin at offset nbits % 8.
  abbrev odd_bitmap : Bitmap
  odd_bitmap = record {
    nbits = nbits;
    v = set (replicate (words nbits) 0) (nbits / 8) (mark_from (8 - nbits % 8) (nbits % 8) 0);
  }

  odd_word :
      nbits / 8 < words nbits
      → (k : ℕ)
      → word_at odd_bitmap k
        ≡ (if nbits / 8 == k then mark_from (8 - nbits % 8) (nbits % 8) 0 else 0)
  odd_word lt k = ground (
    arith,
    get_or-set (replicate (words nbits) 0) (nbits / 8) k (mark_from (8 - nbits % 8) (nbits % 8) 0) 0
        (rw length-replicate lt),
    get_or-replicate (words nbits) k,
  )

  odd-IsFresh : nbits / 8 < words nbits → IsFresh nbits odd_bitmap
  odd-IsFresh lt = record {
    valid = record {
      small = small;
      room = rw (length-set, length-replicate) (omega arith);
      bytes = λ k.
          ground (arith, odd_word lt k, mark_from-lt (nbits % 8) 0 (omega arith) (omega arith));
      leftover = λ i past within. ground (
        arith,
        odd_word lt (i / 8),
        word_isset-mark_from (nbits % 8) (i % 8) (omega arith) (omega arith),
      );
    };
    sized = refl;
    clear = λ j in_bits. ground (
      arith,
      odd_word lt (j / 8),
      word_isset_zero (j % 8) (omega arith),
      word_isset-mark_from (nbits % 8) (j % 8) (omega arith) (omega arith),
    );
  }

  create_leftover_lem :
      nbits / 8 < words nbits
      → create_leftover nbits (words nbits) (replicate (words nbits) 0) ≡ ok (some odd_bitmap)
  unfolding create_leftover
  create_leftover_lem lt =
      let p : words nbits - 1 ≡ nbits / 8 = omega arith in
      let q : (nbits + 2 ^ 32 - nbits / 8 * 8) % 2 ^ 32 ≡ nbits % 8 = omega arith in
      rw (p, q)
        (ground (
          arith,
          get_elem?-get_or {A = ℕ} (replicate (words nbits) 0) (nbits / 8) 0
              (rw length-replicate lt),
          get_or-replicate (words nbits) (nbits / 8),
        ))

  -- bitmap_create returns NULL exactly where kmalloc refuses one of its two requests, and otherwise
  -- a bitmap of clear bits; its assertions hold.
  pub create_lem :
      (kmalloc : ℕ → Bool)
      → (((kmalloc 8 && kmalloc (words nbits)) ≡ false) × (create kmalloc nbits ≡ ok none))
        ⊎ ((b : Bitmap) × ((kmalloc 8 && kmalloc (words nbits)) ≡ true)
            × (create kmalloc nbits ≡ ok (some b))
            × IsFresh nbits b)
  unfolding create
  create_lem kmalloc = elim (Bool-cases (kmalloc 8 && kmalloc (words nbits))) [
    | inr refused ↦ inl (refused, ground (arith, refused))
    | inl granted ↦ elim (dec_lt (nbits / 8) (words nbits)) [
      | yes odd ↦
          inr
            (odd_bitmap, granted, ground (arith, granted, create_leftover_lem odd), odd-IsFresh odd)
      | no even ↦ inr (_, granted, ground (arith, granted), even-IsFresh (omega arith))
    ]
  ]
