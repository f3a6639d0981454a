-- ===== src/Sfs/Words.antt =====
-- A disk block as bytes and as 32-bit words, the highest byte first.
use azurespider.Prelude.{
  get_or, suc, zero, ℕ, ◌+◌, ◌*◌, ◌/◌, ◌%◌, ◌^◌, ◌≡◌, refl, List, [], ◌∷◌, arith, length, replicate,
}

abbrev word : ℕ → ℕ → ℕ → ℕ → ℕ
word a b c d = a * 2 ^ 24 + b * 2 ^ 16 + c * 2 ^ 8 + d

-- The u_int32_t's of a buffer.
unfoldable pub words_of : List ℕ → List ℕ
words_of (a ∷ b ∷ c ∷ d ∷ rest) = word a b c d ∷ words_of rest
words_of (a ∷ b ∷ c ∷ []) = []
words_of (a ∷ b ∷ []) = []
words_of (a ∷ []) = []
words_of [] = []

unfoldable pub bytes_of : List ℕ → List ℕ
bytes_of [] = []
bytes_of (w ∷ ws) = w / 2 ^ 24 ∷ w / 2 ^ 16 % 256 ∷ w / 2 ^ 8 % 256 ∷ w % 256 ∷ bytes_of ws

pub words_of-bytes_of : (ws : List ℕ) → words_of (bytes_of ws) ≡ ws
unfolding words_of bytes_of
words_of-bytes_of [] = refl
words_of-bytes_of (w ∷ ws) = ground (arith, words_of-bytes_of ws)

pub length-bytes_of : (ws : List ℕ) → length (bytes_of ws) ≡ 4 * length ws
unfolding bytes_of
length-bytes_of [] = omega arith
length-bytes_of (w ∷ ws) = omega (arith, length-bytes_of ws)

-- A block of zeros.
pub words_of-zeros : words_of (replicate 512 0) ≡ replicate 128 0
unfolding words_of
words_of-zeros = refl

-- The values of a list of zeros.
pub get_or-zeros : (n j : ℕ) → get_or {A = ℕ} (replicate n 0) j 0 ≡ 0
get_or-zeros zero j = refl
get_or-zeros (suc n) zero = refl
get_or-zeros (suc n) (suc j) = get_or-zeros n j
