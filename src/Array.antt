-- ===== src/Array.antt =====
-- os161/kern/lib/array.c: a resizable array of pointers.
-- `kmalloc` says whether a request of so many bytes succeeds, and `junk` stands for what a fresh
-- block holds. An index or size is an int that the code holds to be at least 0.
pub mod Bounds
pub mod Size
pub mod Calls
mod Tests
use azurespider.Prelude.{
  ℕ, zero, suc, ◌+◌, ◌-◌, ◌*◌, ◌/◌, ◌^◌, ◌%◌, Bool, Option, none, some, List, [], ◌∷◌, ltb, leb,
  ◌==◌, ◌&&◌, true, false, not, if◌then◌else◌, length, get_elem?, set, replicate, Run, ok, fault,
  timeout, ◌>>=◌, ◌>>◌, assert, in_range,
}
use azurespider.Errno.{Code, enomem}

-- struct array. `none` is a NULL v.
pub record Array {ℓ} (A : Type ℓ) : Type ℓ where
  pub num : ℕ
  pub max_ : ℕ
  pub v : Option (List A)

-- The loop of array_preallocate that raises newmax.
pub grow_max : ℕ → ℕ → ℕ → Run ℕ
grow_max zero nguys newmax = if ltb newmax nguys then timeout else ok newmax
grow_max (suc fuel) nguys newmax =
    let rest = grow_max fuel nguys ((newmax + 1) * 2) in
    if ltb newmax nguys
    then (if ltb ((newmax + 1) * 2) (2 ^ 31) then rest else fault)
    else ok newmax

module _ {ℓ} {A : Type ℓ} where
  -- The cells at v; there are none at NULL.
  abbrev pub block : Option (List A) → List A
  block none = []
  block (some cells) = cells

  abbrev pub is_null : Option (List A) → Bool
  is_null none = true
  is_null (some cells) = false

  -- for (i=0; i<n; i++) newv[i] = v[i];
  pub copy_cells : ℕ → List A → List A → Run (List A)
  copy_cells zero v newv = ok newv
  copy_cells (suc n) [] newv = fault
  copy_cells (suc n) (x ∷ v) [] = fault
  copy_cells (suc n) (x ∷ v) (y ∷ newv) = do rest ← copy_cells n v newv; ok (x ∷ rest)

  -- memmove(v+i, v+i+1, n * sizeof(void *))
  pub move_down : ℕ → ℕ → List A → Run (List A)
  move_down (suc i) n [] = fault
  move_down (suc i) n (x ∷ v) = do rest ← move_down i n v; ok (x ∷ rest)
  move_down zero zero v = ok v
  move_down zero (suc n) [] = fault
  move_down zero (suc n) (x ∷ []) = fault
  move_down zero (suc n) (x ∷ y ∷ v) = do rest ← move_down zero n (y ∷ v); ok (y ∷ rest)

  -- A write through v.
  pub store : Array A → ℕ → A → Run (Array A)
  store a index x =
      if ltb index (length (block a.v))
      then ok (record a { v = some (set (block a.v) index x) })
      else fault

  -- array_create: none is NULL.
  pub create : (ℕ → Bool) → Option (Array A)
  create kmalloc = if kmalloc 12 then some (record { num = 0; max_ = 0; v = none }) else none

  -- array_getnum
  unfoldable pub getnum : Array A → ℕ
  getnum a = a.num

  -- array_getguy
  pub getguy : Array A → ℕ → Run A
  getguy a index = do
    assert (leb a.num a.max_)
    assert (ltb index a.num)
    in_range (get_elem? (block a.v) index)

  -- array_preallocate. The kfree of the old block touches no field.
  pub preallocate : (ℕ → Bool) → A → Array A → ℕ → Run (Code × Array A)
  preallocate kmalloc junk a nguys = do
    assert (leb a.num a.max_)
    newmax ← grow_max nguys nguys a.max_
    if kmalloc (newmax * 4 % 2 ^ 32)
        then (do
          newv ← copy_cells a.num (block a.v) (replicate (newmax * 4 % 2 ^ 32 / 4) junk)
          ok (none, record a { max_ = newmax; v = some newv }))
        else ok (some enomem, a)

  -- The end of array_setsize: the early return on an error, or the new size.
  abbrev pub resized : ℕ → Code × Array A → Code × Array A
  resized nguys (some e, a) = (some e, a)
  resized nguys (none, a) = (none, record a { num = nguys })

  -- array_setsize
  pub setsize : (ℕ → Bool) → A → Array A → ℕ → Run (Code × Array A)
  setsize kmalloc junk a nguys = do
    assert (leb a.num a.max_)
    let larger = preallocate kmalloc junk a nguys
    if ltb a.max_ nguys
        then (do r ← larger; ok (resized nguys r))
        else if nguys == 0 && ltb 16 a.max_
        then (do assert (not (is_null a.v)); ok (none, record { num = nguys; max_ = 0; v = none }))
        else ok (none, record a { num = nguys })

  -- array_setguy
  pub setguy : Array A → ℕ → A → Run (Array A)
  setguy a index x = do assert (leb a.num a.max_); assert (ltb index a.num); store a index x

  -- array_add
  pub add : (ℕ → Bool) → A → Array A → A → Run (Code × Array A)
  add kmalloc junk a x = do
    (result, a') ← setsize kmalloc junk a (a.num + 1)
    elim result [ some e ↦ ok (some e, a') | none ↦ (do a'' ← store a' a.num x; ok (none, a'')) ]

  -- array_remove
  pub remove : Array A → ℕ → Run (Array A)
  remove a index = do
    assert (leb a.num a.max_)
    assert (ltb index a.num)
    moved ← move_down index (a.num - (index + 1)) (block a.v)
    ok (record a { num = a.num - 1; v = some moved })
