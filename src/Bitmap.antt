-- ===== src/Bitmap.antt =====
-- os161/kern/lib/bitmap.c: an array of bits in bytes, for storage management.
-- A u_int32_t is a number with its wrap-around written out, a WORD_TYPE a number below 256.
mod Words
pub mod Bits
pub mod Alloc
pub mod Create
mod Tests
use azurespider.Prelude.{
  ℕ, zero, suc, ◌+◌, ◌-◌, ◌*◌, ◌/◌, ◌%◌, ◌^◌, Bool, not, Option, none, some, List, ltb, ◌==◌,
  if◌then◌else◌, length, get_elem?, set, replicate, bit_and, bit_or, Run, ok, panic, fault, ◌>>=◌,
  ◌>>◌, assert, in_range,
}
use azurespider.Errno.{Code, enospc}

-- struct bitmap
pub record Bitmap : Type 0 where
  pub nbits : ℕ
  pub v : List ℕ

-- DIVROUNDUP(nbits, BITS_PER_WORD)
abbrev pub words : ℕ → ℕ
words nbits = (nbits + 8 - 1) % 2 ^ 32 / 8

-- ((WORD_TYPE)1) << offset
abbrev pub mask : ℕ → ℕ
mask offset = 2 ^ offset % 256

-- (word & mask) != 0, word | mask and word & ~mask
unfoldable pub word_isset : ℕ → ℕ → Bool
word_isset w offset = not (bit_and w (mask offset) == 0)

pub word_mark : ℕ → ℕ → ℕ
word_mark w offset = bit_or w (mask offset)

pub word_unmark : ℕ → ℕ → ℕ
word_unmark w offset = bit_and w (2 ^ 32 - 1 - mask offset)

-- The loop of bitmap_create that marks the leftover bits, from j = offset on.
pub mark_from : ℕ → ℕ → ℕ → ℕ
mark_from zero offset w = w
mark_from (suc rounds) offset w = mark_from rounds (offset + 1) (word_mark w offset)

-- The branch of bitmap_create that marks the leftover bits of the last of n words in use.
pub create_leftover : ℕ → ℕ → List ℕ → Run (Option Bitmap)
create_leftover nbits n zeros = do
  let ix = n - 1
  let overbits = (nbits + 2 ^ 32 - ix * 8) % 2 ^ 32
  assert (nbits / 8 == ix)
  assert (ltb 0 overbits)
  assert (ltb overbits 8)
  w ← in_range (get_elem? zeros ix)
  ok (some (record { nbits = nbits; v = set zeros ix (mark_from (8 - overbits) overbits w) }))

-- bitmap_create: none is NULL.
pub create : (ℕ → Bool) → ℕ → Run (Option Bitmap)
create kmalloc nbits =
    let n = words nbits in
    if kmalloc 8
    then if kmalloc n
      then if ltb (nbits / 8) n
        then create_leftover nbits n (replicate n 0)
        else ok (some (record { nbits = nbits; v = replicate n 0 }))
      else ok none
    else ok none

-- The inner loop of bitmap_alloc: the first clear bit of a word.
pub find_clear : ℕ → ℕ → ℕ → Option ℕ
find_clear zero offset w = none
find_clear (suc rounds) offset w =
    let rest = find_clear rounds (offset + 1) w in
    if bit_and w (mask offset) == 0 then some offset else rest

-- The outer loop of bitmap_alloc over `rounds` words from ix on. The ℕ is what goes through `index`.
pub alloc_from : ℕ → ℕ → Bitmap → Run (Code × ℕ × Bitmap)
alloc_from zero ix b = ok (some enospc, 0, b)
alloc_from (suc rounds) ix b =
    let rest = alloc_from rounds (ix + 1) b in
    let found = λ (w : ℕ) (offset : ℕ). (do
      assert (ltb ((ix * 8 + offset) % 2 ^ 32) b.nbits)
      ok (none, (ix * 8 + offset) % 2 ^ 32, record b { v = set b.v ix (word_mark w offset) })) in
    elim (get_elem? b.v ix) [
      | none ↦ fault
      | some w ↦
          if w == 255
          then rest
          else elim (find_clear 8 0 w) [ none ↦ panic | some offset ↦ found w offset ]
    ]

-- bitmap_alloc
pub alloc : Bitmap → Run (Code × ℕ × Bitmap)
alloc b = alloc_from (words b.nbits) 0 b

-- bitmap_mark; bitmap_translate is `/ 8` and `% 8`.
pub mark : Bitmap → ℕ → Run Bitmap
mark b index = do
  assert (ltb index b.nbits)
  w ← in_range (get_elem? b.v (index / 8))
  assert (not (word_isset w (index % 8)))
  ok (record b { v = set b.v (index / 8) (word_mark w (index % 8)) })

-- bitmap_unmark
pub unmark : Bitmap → ℕ → Run Bitmap
unmark b index = do
  assert (ltb index b.nbits)
  w ← in_range (get_elem? b.v (index / 8))
  assert (word_isset w (index % 8))
  ok (record b { v = set b.v (index / 8) (word_unmark w (index % 8)) })

-- bitmap_isset, which does not check its index.
pub isset : Bitmap → ℕ → Run Bool
isset b index = do w ← in_range (get_elem? b.v (index / 8)); ok (word_isset w (index % 8))
