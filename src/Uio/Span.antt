-- ===== src/Uio/Span.antt =====
-- Runs of bytes of a memory that is a function.
use azurespider.Prelude.{
  ℕ, zero, suc, ◌+◌, ◌≤◌, ◌<◌, ◌≡◌, refl, ap, ap₂, ◌∙◌, List, [], ◌∷◌, ◌++◌, take, drop, get_or,
  length, arith,
}

-- The n values of f from i on.
abbrev pub span : (ℕ → ℕ) → ℕ → ℕ → List ℕ
span f i zero = []
span f i (suc n) = f i ∷ span f (i + 1) n

pub length-span : (f : ℕ → ℕ) (i n : ℕ) → length (span f i n) ≡ n
length-span f i zero = refl
length-span f i (suc n) = ap suc (length-span f (i + 1) n)

-- Two memories that agree, one at i and the other at j, have the same run.
pub span_same :
    (f g : ℕ → ℕ) (i j n : ℕ) → ((k : ℕ) → k < n → f (i + k) ≡ g (j + k)) → span f i n ≡ span g j n
span_same f g i j zero e = refl
span_same f g i j (suc n) e =
    ap₂ (λ x xs. x ∷ xs) (ap f (omega arith) ∙ e 0 (omega arith) ∙ ap g (omega arith))
      (span_same f g (i + 1) (j + 1) n
        λ k lt. ap f (omega arith) ∙ e (k + 1) (omega (arith, lt)) ∙ ap g (omega arith))

pub span_join : (f : ℕ → ℕ) (i m n : ℕ) → span f i (m + n) ≡ span f i m ++ span f (i + m) n
span_join f i zero n =
    ap (span f i) {x = 0 + n} {y = n} (omega arith)
    ∙ ap (λ j. span f j n) {x = i} {y = i + 0} (omega arith)
span_join f i (suc m) n =
    ap (span f i) {x = suc m + n} {y = suc (m + n)} (omega arith)
    ∙ ap (λ xs. f i ∷ xs) (span_join f (i + 1) m n)
    ∙ ap (λ j. span f i (suc m) ++ span f j n) {x = i + 1 + m} {y = i + suc m} (omega arith)

-- A part of a list as a run of its values.
pub take-drop-span :
    (xs : List ℕ) (i n : ℕ) → i + n ≤ length xs → take n (drop i xs) ≡ span (λ k. get_or xs k 0) i n
take-drop-span xs i zero h = refl
take-drop-span [] i (suc n) h = absurd (omega (arith, h))
take-drop-span (x ∷ xs) zero (suc n) h =
    ap (λ ys. x ∷ ys)
      (take-drop-span xs 0 n (omega (arith, h))
        ∙ span_same (λ k. get_or xs k 0) (λ k. get_or (x ∷ xs) k 0) 0 1 n
            λ k lt. ap (λ j. get_or (x ∷ xs) j 0) {x = suc (0 + k)} {y = 1 + k} (omega arith))
take-drop-span (x ∷ xs) (suc i) (suc n) h =
    take-drop-span xs i (suc n) (omega (arith, h))
    ∙ span_same (λ k. get_or xs k 0) (λ k. get_or (x ∷ xs) k 0) i (suc i) (suc n)
        λ k lt. ap (λ j. get_or (x ∷ xs) j 0) {x = suc (i + k)} {y = suc i + k} (omega arith)
