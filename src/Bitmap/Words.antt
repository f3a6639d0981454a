-- ===== src/Bitmap/Words.antt =====
-- os161/kern/lib/bitmap.c: what setting, clearing and testing a bit of one byte do, checked over all
-- bytes and offsets.
use azurespider.Prelude.{
  ℕ, zero, suc, ◌<◌, ◌≡◌, refl, Bool, true, false, not, ◌&&◌, ◌||◌, arith, ltb, ltb→lt, ◌-◌, ◌≢◌,
  ◌==◌, ==_iff, Option, none, some,
}
use azurespider.Bitmap.{word_isset, word_mark, word_unmark, mark_from, find_clear}

every : ℕ → (ℕ → Bool) → Bool
every zero p = true
every (suc n) p = p n && every n p

every_sound : (n : ℕ) (p : ℕ → Bool) (x : ℕ) → every n p ≡ true → x < n → p x ≡ true
unfolding every
every_sound zero p x h lt = absurd (omega arith)
every_sound (suc n) p x h lt = ground (arith, every_sound n p x)

abbrev same : Bool → Bool → Bool
same true b = b
same false b = not b

same-eq : (a b : Bool) → same a b ≡ true → a ≡ b
same-eq true b h = ground arith
same-eq false b h = ground arith

-- A test of every byte, offset and second offset.
abbrev for_all : (ℕ → ℕ → ℕ → Bool) → Bool
for_all p = every 256 λ w. every 8 λ o. every 8 λ j. p w o j

for_all_sound :
    (p : ℕ → ℕ → ℕ → Bool) (w o j : ℕ) → for_all p ≡ true → w < 256 → o < 8 → j < 8 → p w o j ≡ true
for_all_sound p w o j h hw ho hj =
    every_sound 8 _ j
      (every_sound 8 (λ o. every 8 λ j. p w o j) o
        (every_sound 256 (λ w. every 8 λ o. every 8 λ j. p w o j) w h hw) ho)
      hj

abbrev mark_ok : ℕ → ℕ → ℕ → Bool
mark_ok w o j =
    same (word_isset (word_mark w o) j) (o == j || word_isset w j) && ltb (word_mark w o) 256

mark_table : for_all mark_ok ≡ true
unfolding every word_isset word_mark
mark_table = refl

abbrev unmark_ok : ℕ → ℕ → ℕ → Bool
unmark_ok w o j =
    same (word_isset (word_unmark w o) j) (not (o == j) && word_isset w j)
    && ltb (word_unmark w o) 256

unmark_table : for_all unmark_ok ≡ true
unfolding every word_isset word_unmark
unmark_table = refl

abbrev find_ok : ℕ → Bool
find_ok w = elim (find_clear 8 0 w) [
  | none ↦ w == 255
  | some o ↦ ltb o 8 && not (word_isset w o) && every o (λ j. word_isset w j)
]

find_table : every 256 find_ok ≡ true
unfolding every find_clear word_isset
find_table = refl

zero_table : every 8 (λ j. not (word_isset 0 j)) ≡ true
unfolding every word_isset
zero_table = refl

full_table : every 8 (λ j. word_isset 255 j) ≡ true
unfolding every word_isset
full_table = refl

abbrev leftover_ok : ℕ → ℕ → Bool
leftover_ok o j =
    same (word_isset (mark_from (8 - o) o 0) j) (not (ltb j o)) && ltb (mark_from (8 - o) o 0) 256

leftover_table : (every 8 λ o. every 8 λ j. leftover_ok o j) ≡ true
unfolding every mark_from word_isset word_mark
leftover_table = refl

and-true : (a b : Bool) → (a && b) ≡ true → (a ≡ true) × (b ≡ true)
and-true a b h = ground arith

module _ (w o j : ℕ) (hw : w < 256) (ho : o < 8) (hj : j < 8) where
  pub word_isset-mark : word_isset (word_mark w o) j ≡ (o == j || word_isset w j)
  word_isset-mark = same-eq _ _ (and-true _ _ (for_all_sound mark_ok w o j mark_table hw ho hj)).0

  pub word_isset-unmark : word_isset (word_unmark w o) j ≡ (not (o == j) && word_isset w j)
  word_isset-unmark =
      same-eq _ _ (and-true _ _ (for_all_sound unmark_ok w o j unmark_table hw ho hj)).0

pub word_mark-lt : (w o : ℕ) → w < 256 → o < 8 → word_mark w o < 256
word_mark-lt w o hw ho =
    ltb→lt _ _ (and-true _ _ (for_all_sound mark_ok w o 0 mark_table hw ho (omega arith))).1

pub word_unmark-lt : (w o : ℕ) → w < 256 → o < 8 → word_unmark w o < 256
word_unmark-lt w o hw ho =
    ltb→lt _ _ (and-true _ _ (for_all_sound unmark_ok w o 0 unmark_table hw ho (omega arith))).1

pub word_isset_zero : (j : ℕ) → j < 8 → word_isset 0 j ≡ false
word_isset_zero j h = ground (arith, every_sound 8 (λ j. not (word_isset 0 j)) j zero_table h)

pub word_isset_full : (j : ℕ) → j < 8 → word_isset 255 j ≡ true
word_isset_full j h = every_sound 8 _ j full_table h

module _ (o j : ℕ) (ho : o < 8) (hj : j < 8) where
  leftover_at : leftover_ok o j ≡ true
  leftover_at =
      every_sound 8 _ j (every_sound 8 (λ o. every 8 λ j. leftover_ok o j) o leftover_table ho) hj

  pub word_isset-mark_from : word_isset (mark_from (8 - o) o 0) j ≡ not (ltb j o)
  word_isset-mark_from = same-eq _ _ (and-true _ _ leftover_at).0

  pub mark_from-lt : mark_from (8 - o) o 0 < 256
  mark_from-lt = ltb→lt _ _ (and-true _ _ leftover_at).1

-- In a byte that is not full the search finds the lowest clear bit.
pub record IsLowest (w o : ℕ) : Type 0 where
  pub in_byte : o < 8
  pub clear : word_isset w o ≡ false
  pub below : (j : ℕ) → j < o → word_isset w j ≡ true

pub find_clear_lem :
    (w : ℕ) → w < 256 → w ≢ 255 → (o : ℕ) × (find_clear 8 0 w ≡ some o) × IsLowest w o
find_clear_lem w hw ne = go (find_clear 8 0 w) refl (every_sound 256 find_ok w find_table hw)
  where
    go :
        (r : Option ℕ)
        → find_clear 8 0 w ≡ r
        → elim r [
          | none ↦ w == 255
          | some o ↦ ltb o 8 && not (word_isset w o) && every o (λ j. word_isset w j)
        ]
          ≡ true
        → (o : ℕ) × (find_clear 8 0 w ≡ some o) × IsLowest w o
    go none e h = absurd (ne ((==_iff w 255).0 h))
    go (some o) e h =
        let p = and-true (ltb o 8 && not (word_isset w o)) _ h in
        let q = and-true (ltb o 8) (not (word_isset w o)) p.0 in
        (
          o,
          e,
          record {
            in_byte = ltb→lt _ _ q.0;
            clear = ground (arith, q.1);
            below = λ j lt. every_sound o _ j p.1 lt;
          },
        )
