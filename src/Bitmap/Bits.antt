-- ===== src/Bitmap/Bits.antt =====
-- os161/kern/lib/bitmap.c: a bitmap as a set of bit numbers.
use azurespider.Prelude.{
  ℕ, zero, suc, ◌+◌, ◌*◌, ◌/◌, ◌%◌, ◌^◌, ◌≤◌, ◌<◌, ◌≡◌, refl, ◌∙◌, ◌⊎◌, inl, inr, Bool, true, false,
  not, ◌&&◌, ◌||◌, Bool-cases, some, List, [], ◌∷◌, arith, ◌==◌, if◌then◌else◌, length, length-set,
  get_elem?, get_or, set, ok, panic,
}
use azurespider.Bitmap.{Bitmap, words, word_isset, word_mark, word_unmark, mark, unmark, isset}
use azurespider.Bitmap.Words.{word_isset-mark, word_isset-unmark, word_mark-lt, word_unmark-lt}

abbrev pub word_at : Bitmap → ℕ → ℕ
word_at b k = get_or b.v k 0

-- Whether a bit is in use.
abbrev pub bit : Bitmap → ℕ → Bool
bit b i = word_isset (word_at b (i / 8)) (i % 8)

-- The bits behind the last one, in its byte, are in use.
pub record IsValid (b : Bitmap) : Type 0 where
  pub small : b.nbits + 8 ≤ 2 ^ 32
  pub room : words b.nbits ≤ length b.v
  pub bytes : (k : ℕ) → word_at b k < 256
  pub leftover : (i : ℕ) → b.nbits ≤ i → i < 8 * words b.nbits → bit b i ≡ true

pub get_or-set :
    (xs : List ℕ) (i j x d : ℕ)
    → i < length xs
    → get_or (set xs i x) j d ≡ (if i == j then x else get_or xs j d)
get_or-set [] i j x d h = absurd (omega arith)
get_or-set (y ∷ xs) zero zero x d h = refl
get_or-set (y ∷ xs) zero (suc j) x d h = ground arith
get_or-set (y ∷ xs) (suc i) zero x d h = ground arith
get_or-set (y ∷ xs) (suc i) (suc j) x d h = get_or-set xs i j x d (omega arith) ∙ ground arith

pub get_elem?-get_or {ℓ} :
    {A : Type ℓ} (xs : List A) (i : ℕ) (d : A)
    → i < length xs
    → get_elem? xs i ≡ some (get_or xs i d)
get_elem?-get_or [] i d h = absurd (omega arith)
get_elem?-get_or (x ∷ xs) zero d h = refl
get_elem?-get_or (x ∷ xs) (suc i) d h = get_elem?-get_or xs i d (omega arith)

-- Two bit numbers are one if they have the same byte and the same offset.
same_bit : (i j : ℕ) → (i == j) ≡ ((i / 8 == j / 8) && (i % 8 == j % 8))
same_bit i j = ground arith

module _ (b : Bitmap) (i : ℕ) (v : IsValid b) (lt : i < b.nbits) where
  pub in_room : i / 8 < length b.v
  in_room = omega (arith, v.small, v.room)

  -- What writing a byte back does to each bit.
  pub bit-write :
      (w : ℕ) (j : ℕ)
      → bit (record b { v = set b.v (i / 8) w }) j
        ≡ (if i / 8 == j / 8 then word_isset w (j % 8) else bit b j)
  bit-write w j = ground (arith, get_or-set b.v (i / 8) (j / 8) w 0 in_room)

  pub bit-mark :
      (j : ℕ)
      → bit (record b { v = set b.v (i / 8) (word_mark (word_at b (i / 8)) (i % 8)) }) j
        ≡ (i == j || bit b j)
  bit-mark j = ground (
    arith,
    bit-write (word_mark (word_at b (i / 8)) (i % 8)) j,
    word_isset-mark (word_at b (i / 8)) (i % 8) (j % 8) (v.bytes (i / 8)) (omega arith)
        (omega arith),
  )

  pub bit-unmark :
      (j : ℕ)
      → bit (record b { v = set b.v (i / 8) (word_unmark (word_at b (i / 8)) (i % 8)) }) j
        ≡ (not (i == j) && bit b j)
  bit-unmark j = ground (
    arith,
    bit-write (word_unmark (word_at b (i / 8)) (i % 8)) j,
    word_isset-unmark (word_at b (i / 8)) (i % 8) (j % 8) (v.bytes (i / 8)) (omega arith)
        (omega arith),
  )

  pub read-word : get_elem? b.v (i / 8) ≡ some (word_at b (i / 8))
  read-word = get_elem?-get_or b.v (i / 8) 0 in_room

  pub write-IsValid :
      (w : ℕ)
      → w < 256
      → ((j : ℕ) → b.nbits ≤ j → bit b j ≡ true → bit (record b { v = set b.v (i / 8) w }) j ≡ true)
      → IsValid (record b { v = set b.v (i / 8) w })
  write-IsValid w hw keep = record {
    small = v.small;
    room = rw length-set v.room;
    bytes = λ k. ground (arith, get_or-set b.v (i / 8) k w 0 in_room, v.bytes k);
    leftover = λ j past within. keep j past (v.leftover j past within);
  }

  -- bitmap_mark sets a clear bit and no other, and panics at a bit in use.
  pub mark_lem :
      ((b' : Bitmap) × (bit b i ≡ false)
        × (mark b i ≡ ok b')
        × IsValid b'
        × (b'.nbits ≡ b.nbits)
        × ((j : ℕ) → bit b' j ≡ (i == j || bit b j)))
      ⊎ ((bit b i ≡ true) × (mark b i ≡ panic))
  unfolding mark
  mark_lem = elim (Bool-cases (bit b i)) [
    | inl used ↦ inr (used, ground (arith, read-word))
    | inr clear ↦ inl (
      record b { v = set b.v (i / 8) (word_mark (word_at b (i / 8)) (i % 8)) },
      clear,
      ground (arith, read-word),
      write-IsValid (word_mark (word_at b (i / 8)) (i % 8))
          (word_mark-lt _ _ (v.bytes (i / 8)) (omega arith))
          (λ j past used. ground (arith, bit-mark j)),
      refl,
      bit-mark,
    )
  ]

  -- bitmap_unmark clears a bit in use and no other, and panics at a clear one.
  pub unmark_lem :
      ((b' : Bitmap) × (bit b i ≡ true)
        × (unmark b i ≡ ok b')
        × IsValid b'
        × (b'.nbits ≡ b.nbits)
        × ((j : ℕ) → bit b' j ≡ (not (i == j) && bit b j)))
      ⊎ ((bit b i ≡ false) × (unmark b i ≡ panic))
  unfolding unmark
  unmark_lem = elim (Bool-cases (bit b i)) [
    | inr clear ↦ inr (clear, ground (arith, read-word))
    | inl used ↦ inl (
      record b { v = set b.v (i / 8) (word_unmark (word_at b (i / 8)) (i % 8)) },
      used,
      ground (arith, read-word),
      write-IsValid (word_unmark (word_at b (i / 8)) (i % 8))
          (word_unmark-lt _ _ (v.bytes (i / 8)) (omega arith))
          (λ j past used. ground (arith, bit-unmark j)),
      refl,
      bit-unmark,
    )
  ]

  pub isset_lem : isset b i ≡ ok (bit b i)
  unfolding isset
  isset_lem = ground (arith, read-word)

-- bitmap_mark and bitmap_unmark panic at a number that is no bit's.
pub out_of_range : (b : Bitmap) (i : ℕ) → b.nbits ≤ i → (mark b i ≡ panic) × (unmark b i ≡ panic)
unfolding mark unmark
out_of_range b i h = ground arith
