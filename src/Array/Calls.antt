-- ===== src/Array/Calls.antt =====
-- os161/kern/lib/array.c: array_getguy, array_setguy, array_add and array_remove, as operations on the
-- list of pointers that an array holds.
use azurespider.Prelude.{
  ℕ, zero, suc, ◌+◌, ◌-◌, ◌^◌, ◌≤◌, ◌<◌, ◌≡◌, refl, sym, subst, ap, ◌∙◌, ◌⊎◌, inl, inr, Bool, none,
  some, List, [], ◌∷◌, ◌++◌, arith, length, length-set, get_elem?, take, set, ok, panic, dec_lt,
}
use azurespider.Array.Size.{take_shorter, Resized, kept, setsize_larger}
use azurespider.Array.{Array, block, getguy, setsize, setguy, add, remove, store}
use azurespider.Array.Bounds.{IsValid, contents, move_down_lem, remove_at}

module _ {ℓ} {A : Type ℓ} where
  get-take : (n i : ℕ) (xs : List A) → i < n → get_elem? (take n xs) i ≡ get_elem? xs i
  get-take zero i xs h = absurd (omega arith)
  get-take (suc n) i [] h = refl
  get-take (suc n) zero (x ∷ xs) h = refl
  get-take (suc n) (suc i) (x ∷ xs) h = get-take n i xs (omega arith)

  take-set : (n i : ℕ) (xs : List A) (x : A) → take n (set xs i x) ≡ set (take n xs) i x
  take-set zero i xs x = refl
  take-set (suc n) i [] x = refl
  take-set (suc n) zero (y ∷ xs) x = refl
  take-set (suc n) (suc i) (y ∷ xs) x = ap (◌∷◌ y) (take-set n i xs x)

  get_elem?-in : (i : ℕ) (xs : List A) → i < length xs → (x : A) × (get_elem? xs i ≡ some x)
  get_elem?-in i [] h = absurd (omega arith)
  get_elem?-in zero (x ∷ xs) h = (x, refl)
  get_elem?-in (suc i) (x ∷ xs) h = get_elem?-in i xs (omega arith)

  -- array_getguy returns the pointer at an index below the size, and panics at any other.
  pub getguy_lem :
      (a : Array A) (i : ℕ)
      → IsValid a
      → ((x : A) × (i < a.num) × (get_elem? (contents a) i ≡ some x) × (getguy a i ≡ ok x))
        ⊎ ((a.num ≤ i) × (getguy a i ≡ panic))
  unfolding getguy
  getguy_lem a i v = elim (dec_lt i a.num) [
    | yes lt ↦
        let (x, e) = get_elem?-in i (block a.v) (omega (arith, v.num_in, v.room)) in
        inl (x, lt, get-take a.num i (block a.v) lt ∙ e, ground (arith, e, v.num_in))
    | no ge ↦ inr (omega arith, ground (arith, v.num_in))
  ]

  -- array_setguy replaces the pointer at an index below the size, and panics at any other.
  pub setguy_lem :
      (a : Array A) (i : ℕ) (x : A)
      → IsValid a
      → ((a' : Array A) × (i < a.num)
          × (setguy a i x ≡ ok a')
          × IsValid a'
          × (contents a' ≡ set (contents a) i x))
        ⊎ ((a.num ≤ i) × (setguy a i x ≡ panic))
  unfolding setguy store
  setguy_lem a i x v = elim (dec_lt i a.num) [
    | yes lt ↦ inl (
      record a { v = some (set (block a.v) i x) },
      lt,
      ground (arith, v.num_in, v.room),
      record { num_in = v.num_in; room = rw length-set v.room; small = v.small },
      take-set a.num i (block a.v) x,
    )
    | no ge ↦ inr (omega arith, ground (arith, v.num_in))
  ]

  -- array_remove takes the pointer at an index below the size out and moves those behind it down
  -- by one; it panics at any other index.
  pub remove_lem :
      (a : Array A) (i : ℕ)
      → IsValid a
      → ((a' : Array A) × (i < a.num)
          × (remove a i ≡ ok a')
          × IsValid a'
          × (a'.max_ ≡ a.max_)
          × (contents a' ≡ remove_at (contents a) i))
        ⊎ ((a.num ≤ i) × (remove a i ≡ panic))
  unfolding remove
  remove_lem a i v = elim (dec_lt i a.num) [
    | yes lt ↦
        let shorter : i + (a.num - (i + 1)) ≡ a.num - 1 = omega arith in
        let whole : suc (a.num - 1) ≡ a.num = omega arith in
        let (w, e, t, l) =
          move_down_lem i (a.num - (i + 1)) (block a.v) (omega (arith, v.num_in, v.room)) in
        inl (
          record a { num = a.num - 1; v = some w },
          lt,
          ground (arith, e, v.num_in),
          record { num_in = omega (arith, v.num_in); room = rw l v.room; small = v.small },
          refl,
          rw (shorter, whole) at t,
        )
    | no ge ↦ inr (omega arith, ground (arith, v.num_in))
  ]

  take-suc-set :
      (n : ℕ) (xs : List A) (x : A)
      → n < length xs
      → take (suc n) (set xs n x) ≡ take n xs ++ x ∷ []
  take-suc-set n [] x h = absurd (omega arith)
  take-suc-set zero (y ∷ xs) x h = refl
  take-suc-set (suc n) (y ∷ xs) x h = ap (◌∷◌ y) (take-suc-set n xs x (omega arith))

  -- array_add puts the pointer at the end, or returns ENOMEM with the array as it was, which happens only
  -- if kmalloc refuses.
  pub add_lem :
      (kmalloc : ℕ → Bool) (junk : A) (a : Array A) (x : A)
      → IsValid a
      → a.num + 1 < 2 ^ 29
      → Resized kmalloc a (λ a'. contents a' ≡ contents a ++ x ∷ []) (add kmalloc junk a x)
  unfolding add store
  add_lem kmalloc junk a x v small =
      elim (setsize_larger kmalloc junk a (a.num + 1) v (omega arith) small (omega arith)) [
        | inl (n, refused, e) ↦ inl (n, refused, ground (arith, e))
        | inr (a1, e, v1, (same, num)) ↦ inr (
          record a1 { v = some (set (block a1.v) a.num x) },
          ground (arith, e, num, v1.num_in, v1.room),
          record { num_in = v1.num_in; room = rw length-set v1.room; small = v1.small },
          subst (λ n. take n (set (block a1.v) a.num x) ≡ contents a ++ x ∷ []) {x = suc a.num}
              (omega (arith, num))
              (take-suc-set a.num (block a1.v) x (omega (arith, num, v1.num_in, v1.room))
                ∙ ap (λ ys. ys ++ x ∷ [])
                    (sym (take_shorter a.num a1.num (block a1.v) (omega (arith, num))) ∙ same)),
        )
      ]

  -- While there is room, array_add needs no memory: it succeeds also if kmalloc refuses every request.
  pub add-room :
      (kmalloc : ℕ → Bool) (junk : A) (a : Array A) (x : A)
      → IsValid a
      → a.num < a.max_
      → (a' : Array A) × (add kmalloc junk a x ≡ ok (none, a'))
        × IsValid a'
        × (a'.max_ ≡ a.max_)
        × (contents a' ≡ contents a ++ x ∷ [])
  unfolding add store setsize
  add-room kmalloc junk a x v room = (
    record a { num = a.num + 1; v = some (set (block a.v) a.num x) },
    ground (arith, v.num_in, v.room, kept (a.num + 1) a.max_ (inl (omega arith))),
    record { num_in = omega arith; room = rw length-set v.room; small = v.small },
    refl,
    subst (λ n. take n (set (block a.v) a.num x) ≡ contents a ++ x ∷ []) {x = suc a.num}
        (omega arith) (take-suc-set a.num (block a.v) x (omega (arith, v.room))),
  )
