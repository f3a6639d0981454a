-- ===== src/Array/Tests.antt =====
-- os161/kern/lib/array.c: runs of the array, and its theorems at concrete arrays.
use azurespider.Prelude.{
  ℕ, ◌≡◌, refl, Bool, true, false, none, some, [], ◌∷◌, arith, get_elem?, replicate, ◌<◌, ◌≤◌, ◌⊎◌,
  ok, panic,
}
use azurespider.Errno.{enomem}
use azurespider.Array.{
  Array, getguy, preallocate, setsize, setguy, add, remove, store, grow_max, copy_cells, move_down,
}
use azurespider.Array.Bounds.{IsValid, contents}
use azurespider.Array.Size.{Resized, preallocate_lem, setsize_zero_forgets}
use azurespider.Array.Calls.{getguy_lem, setguy_lem, remove_lem, add_lem}

abbrev grants : ℕ → Bool
grants n = true

abbrev refuses : ℕ → Bool
refuses n = false

-- Two pointers in a full block, and in one with room.
abbrev full : Array ℕ
full = record { num = 2; max_ = 2; v = some (5 ∷ 6 ∷ []) }

abbrev roomy : Array ℕ
roomy = record { num = 2; max_ = 3; v = some (5 ∷ 6 ∷ 0 ∷ []) }

abbrev wide : Array ℕ
wide = record { num = 1; max_ = 30; v = some (replicate 30 5) }

full-IsValid : IsValid full
full-IsValid = omega arith

roomy-IsValid : IsValid roomy
roomy-IsValid = omega arith

wide-IsValid : IsValid wide
wide-IsValid = omega arith

add_grows :
    add grants 0 full 7
    ≡ ok (none, record { num = 3; max_ = 6; v = some (5 ∷ 6 ∷ 7 ∷ 0 ∷ 0 ∷ 0 ∷ []) })
unfolding add setsize preallocate grow_max copy_cells store
add_grows = refl

remove_first : remove roomy 0 ≡ ok (record { num = 1; max_ = 3; v = some (6 ∷ 6 ∷ 0 ∷ []) })
unfolding remove move_down
remove_first = refl

preallocate_lem_example :
    Resized grants full
      (λ a. (contents a ≡ 5 ∷ 6 ∷ []) × (a.num ≡ 2) × (7 ≤ a.max_))
      (preallocate grants 0 full 7)
preallocate_lem_example = preallocate_lem grants 0 full 7 full-IsValid (omega arith)

setsize_zero_forgets_example :
    (a : Array ℕ) × (setsize refuses 0 wide 0 ≡ ok (none, a))
    × (add refuses 0 a 9 ≡ ok (some enomem, a))
setsize_zero_forgets_example = setsize_zero_forgets refuses 0 wide 9 wide-IsValid (omega arith) refl

getguy_lem_example :
    ((x : ℕ) × (1 < 2) × (get_elem? (5 ∷ 6 ∷ []) 1 ≡ some x) × (getguy full 1 ≡ ok x))
    ⊎ ((2 ≤ 1) × (getguy full 1 ≡ panic))
getguy_lem_example = getguy_lem full 1 full-IsValid

setguy_lem_example :
    ((a : Array ℕ) × (1 < 2) × (setguy full 1 9 ≡ ok a) × IsValid a × (contents a ≡ 5 ∷ 9 ∷ []))
    ⊎ ((2 ≤ 1) × (setguy full 1 9 ≡ panic))
setguy_lem_example = setguy_lem full 1 9 full-IsValid

remove_lem_example :
    ((a : Array ℕ) × (0 < 2)
      × (remove roomy 0 ≡ ok a)
      × IsValid a
      × (a.max_ ≡ 3)
      × (contents a ≡ 6 ∷ []))
    ⊎ ((2 ≤ 0) × (remove roomy 0 ≡ panic))
remove_lem_example = remove_lem roomy 0 roomy-IsValid

add_lem_example : Resized grants full (λ a. contents a ≡ 5 ∷ 6 ∷ 7 ∷ []) (add grants 0 full 7)
add_lem_example = add_lem grants 0 full 7 full-IsValid (omega arith)
