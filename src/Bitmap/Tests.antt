-- ===== src/Bitmap/Tests.antt =====
-- os161/kern/lib/bitmap.c: runs of the bitmap, and its theorems at concrete bitmaps.
use azurespider.Prelude.{
  ℕ, ◌+◌, ◌-◌, subst, zero, suc, ◌≡◌, refl, Bool, true, false, none, some, [], ◌∷◌, arith, ◌<◌, ◌⊎◌,
  ok, panic, ◌==◌, ◌||◌, ◌&&◌,
}
use azurespider.Errno.{enospc}
use azurespider.Bitmap.{
  Bitmap, words, create, create_leftover, mark_from, alloc, alloc_from, find_clear, mark,
  word_isset, word_mark,
}
use azurespider.Bitmap.Bits.{IsValid, bit, word_at, mark_lem}
use azurespider.Bitmap.Alloc.{Took, alloc_lem}
use azurespider.Bitmap.Create.{IsFresh, create_lem}

abbrev grants : ℕ → Bool
grants n = true

-- Ten bits, the first eight and bit 9 in use; the other six of the second byte are left over.
abbrev ten : Bitmap
ten = record { nbits = 10; v = 0xff ∷ 0xfe ∷ [] }

ten-bytes : (k : ℕ) → word_at ten k < 256
ten-bytes zero = omega arith
ten-bytes (suc zero) = omega arith
ten-bytes (suc (suc k)) = omega arith

ten-leftover : (d : ℕ) → d < 6 → bit ten (10 + d) ≡ true
unfolding word_isset
ten-leftover zero h = refl
ten-leftover (suc zero) h = refl
ten-leftover (suc (suc zero)) h = refl
ten-leftover (suc (suc (suc zero))) h = refl
ten-leftover (suc (suc (suc (suc zero)))) h = refl
ten-leftover (suc (suc (suc (suc (suc zero))))) h = refl
ten-leftover (suc (suc (suc (suc (suc (suc d)))))) h = absurd (omega arith)

ten-IsValid : IsValid ten
ten-IsValid = record {
  small = omega arith;
  room = omega arith;
  bytes = ten-bytes;
  leftover = λ i past within.
      subst (λ j. bit ten j ≡ true) {x = 10 + (i - 10)} (omega arith)
        (ten-leftover (i - 10) (omega arith));
}

create_ten : create grants 10 ≡ ok (some (record { nbits = 10; v = 0 ∷ 0xfc ∷ [] }))
unfolding create create_leftover mark_from word_mark
create_ten = refl

alloc_eight : alloc ten ≡ ok (none, 8, record { nbits = 10; v = 0xff ∷ 0xff ∷ [] })
unfolding alloc alloc_from find_clear word_mark
alloc_eight = refl

alloc_full :
    alloc (record { nbits = 10; v = 0xff ∷ 0xff ∷ [] })
    ≡ ok (some enospc, 0, record { nbits = 10; v = 0xff ∷ 0xff ∷ [] })
unfolding alloc alloc_from find_clear word_mark
alloc_full = refl

mark_lem_example :
    ((b : Bitmap) × (bit ten 8 ≡ false)
      × (mark ten 8 ≡ ok b)
      × IsValid b
      × (b.nbits ≡ 10)
      × ((j : ℕ) → bit b j ≡ (8 == j || bit ten j)))
    ⊎ ((bit ten 8 ≡ true) × (mark ten 8 ≡ panic))
mark_lem_example = mark_lem ten 8 ten-IsValid (omega arith)

alloc_lem_example :
    ((i : ℕ) × (b : Bitmap) × (alloc ten ≡ ok (none, i, b)) × Took ten i b)
    ⊎ ((alloc ten ≡ ok (some enospc, 0, ten)) × ((j : ℕ) → j < 10 → bit ten j ≡ true))
alloc_lem_example = alloc_lem ten ten-IsValid

create_lem_example :
    (((grants 8 && grants (words 10)) ≡ false) × (create grants 10 ≡ ok none))
    ⊎ ((b : Bitmap) × ((grants 8 && grants (words 10)) ≡ true)
        × (create grants 10 ≡ ok (some b))
        × IsFresh 10 b)
create_lem_example = create_lem 10 (omega arith) grants
