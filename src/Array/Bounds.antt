-- ===== src/Array/Bounds.antt =====
-- os161/kern/lib/array.c: the invariant of struct array, and the loops that array_preallocate and
-- array_remove run over its cells.
use native.Mathlib.Nat.{zero-add}
use azurespider.Prelude.{
  ℕ, zero, suc, ◌+◌, ◌*◌, ◌^◌, ◌≤◌, ◌<◌, ◌≡◌, refl, ap, inl, inr, Bool-cases, List, [], ◌∷◌, arith,
  ltb, length, take, ok,
}
use azurespider.Array.{Array, block, grow_max, copy_cells, move_down}

-- At most 2 ^ 29 cells, so that neither a doubled size nor a size in bytes overflows.
pub record IsValid {ℓ} {A : Type ℓ} (a : Array A) : Type 0 where
  pub num_in : a.num ≤ a.max_
  pub room : a.max_ ≤ length (block a.v)
  pub small : a.max_ < 2 ^ 30

-- The pointers that an array holds, in order.
abbrev pub contents {ℓ} : {A : Type ℓ} → Array A → List A
contents a = take a.num (block a.v)

-- The size at which the loop stops covers the request, and is at most twice as large.
pub grow_max_lem :
    (fuel t m : ℕ)
    → t ≤ m + fuel
    → t < 2 ^ 29
    → m ≤ 2 * t
    → (m' : ℕ) × (grow_max fuel t m ≡ ok m') × (t ≤ m') × (m ≤ m') × (m' ≤ 2 * t)
unfolding grow_max
grow_max_lem zero t m enough small lt = (m, ground arith, omega arith, omega arith, lt)
grow_max_lem (suc f) t m enough small lt = elim (Bool-cases (ltb m t)) [
  | inl more ↦
      let (m', e, lo, up, hi) = grow_max_lem f t ((m + 1) * 2) (omega arith) small (ground arith) in
      (m', ground arith, lo, omega arith, hi)
  | inr done ↦ (m, ground arith, ground arith, omega arith, lt)
]

pub grow_max-enough : (fuel t m : ℕ) → t ≤ m → grow_max fuel t m ≡ ok m
unfolding grow_max
grow_max-enough zero t m h = ground arith
grow_max-enough (suc f) t m h = ground arith

module _ {ℓ} {A : Type ℓ} where
  -- The copy succeeds, has as many cells as the new block, and begins with the old pointers.
  pub copy_cells_lem :
      (n : ℕ) (v newv : List A)
      → n ≤ length v
      → n ≤ length newv
      → (w : List A) × (copy_cells n v newv ≡ ok w)
        × (take n w ≡ take n v)
        × (length w ≡ length newv)
  unfolding copy_cells
  copy_cells_lem zero v newv hv hn = (newv, refl, refl, refl)
  copy_cells_lem (suc n) [] newv hv hn = absurd (omega arith)
  copy_cells_lem (suc n) (x ∷ v) [] hv hn = absurd (omega arith)
  copy_cells_lem (suc n) (x ∷ v) (y ∷ newv) hv hn =
      let (w, e, t, l) = copy_cells_lem n v newv (omega arith) (omega arith) in
      (x ∷ w, ground (arith, e), ap (◌∷◌ x) t, ap suc l)

  -- The list without the element at an index.
  abbrev pub remove_at : List A → ℕ → List A
  remove_at [] i = []
  remove_at (x ∷ xs) zero = xs
  remove_at (x ∷ xs) (suc i) = x ∷ remove_at xs i

  pub move_down_lem :
      (i n : ℕ) (v : List A)
      → i + n < length v
      → (w : List A) × (move_down i n v ≡ ok w)
        × (take (i + n) w ≡ remove_at (take (suc (i + n)) v) i)
        × (length w ≡ length v)
  unfolding move_down
  move_down_lem (suc i) n [] h = absurd (omega arith)
  move_down_lem (suc i) n (x ∷ v) h =
      let (w, e, t, l) = move_down_lem i n v (omega arith) in
      (
        x ∷ w,
        ground (arith, e),
        let s : suc i + n ≡ suc (i + n) = omega arith in rw s (ap (◌∷◌ x) t),
        ap suc l,
      )
  move_down_lem zero zero [] h = absurd (omega arith)
  move_down_lem zero zero (x ∷ v) h = (x ∷ v, refl, refl, refl)
  move_down_lem zero (suc n) [] h = absurd (omega arith)
  move_down_lem zero (suc n) (x ∷ []) h = absurd (omega arith)
  move_down_lem zero (suc n) (x ∷ y ∷ v) h =
      let (w, e, t, l) = move_down_lem zero n (y ∷ v) (omega arith) in
      (
        y ∷ w,
        ground (arith, e),
        let s : 0 + suc n ≡ suc n = omega arith in rw s (ap (◌∷◌ y) (rw zero-add at t)),
        ap suc l,
      )
