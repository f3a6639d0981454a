-- ===== src/Queue/Holds.antt =====
-- os161/kern/lib/queue.c: what it is for a struct queue to hold a list of pointers, oldest first.
use native.Mathlib.Nat.{mod-add-mod, mod-eq_of_lt, mod-eq-sub-mod, add-zero}
use azurespider.Prelude.{
  ℕ, suc, ◌+◌, ◌-◌, ◌%◌, ◌^◌, ◌≤◌, ◌<◌, ◌≡◌, sym, ◌∙◌, ap, ◌≢◌, some, List, [], ◌∷◌, ◌++◌, arith,
  length, get_elem?, get_elem?-set_self, get_elem?-set_ne, set, dec_lt,
}
use azurespider.Queue.{Queue}

module _ {ℓ} {A : Type ℓ} where
  -- The cells of a ring of `size` cells hold the list from index `i` on.
  abbrev pub Lies : List A → ℕ → ℕ → List A → Type ℓ
  Lies data_ size i [] = Unit
  Lies data_ size i (x ∷ xs) = (get_elem? data_ i ≡ some x) × Lies data_ size ((i + 1) % size) xs

  pub record Holds (q : Queue A) (xs : List A) : Type ℓ where
    pub room : q.size ≤ length q.data_
    pub is_int : q.size < 2 ^ 31
    pub read_in : q.nextread < q.size
    pub fits : length xs < q.size
    pub ends : q.nextwrite ≡ (q.nextread + length xs) % q.size
    pub items : Lies q.data_ q.size q.nextread xs

-- Fewer than `size` steps round the ring do not lead back.
pub ring_apart : (size i k : ℕ) → i < size → 0 < k → k < size → (i + k) % size ≢ i
ring_apart size i k hi hk lt = elim (dec_lt (i + k) size) [
  | yes p ↦ omega (arith, mod-eq_of_lt p)
  | no p ↦ omega (
    arith,
    mod-eq-sub-mod {n = i + k} {m = size} (omega arith),
    mod-eq_of_lt {n = i + k - size} {m = size} (omega arith),
  )
]

pub ring_shift : (size i k : ℕ) → ((i + 1) % size + k) % size ≡ (i + suc k) % size
ring_shift size i k = rw mod-add-mod (ap (λ n. n % size) (omega arith))

pub ring_next : (size i k : ℕ) → ((i + k) % size + 1) % size ≡ (i + suc k) % size
ring_next size i k = rw mod-add-mod (ap (λ n. n % size) (omega arith))

pub ring_start : (size i : ℕ) → i < size → (i + 0) % size ≡ i
ring_start size i hi = rw (add-zero, mod-eq_of_lt hi)

pub ring_round : (size i : ℕ) → i < size → (i + size) % size ≡ i
ring_round size i hi = grind arith

module _ {ℓ} {A : Type ℓ} where
  -- A write behind the list adds to it.
  pub Lies-set :
      (data_ : List A) (size w : ℕ) (x : A) (i : ℕ) (xs : List A)
      → size ≤ length data_
      → i < size
      → length xs < size
      → w ≡ (i + length xs) % size
      → Lies data_ size i xs
      → Lies (set data_ w x) size i (xs ++ x ∷ [])
  Lies-set data_ size w x i [] room hi fits e l =
      let e' : w ≡ i = e ∙ ring_start size i hi in
      (rw e' (get_elem?-set_self data_ i x (omega arith)), tt)
  Lies-set data_ size w x i (y ∷ ys) room hi fits e l = (
    get_elem?-set_ne data_ x (rw e (ring_apart size i (suc (length ys)) hi (omega arith) fits))
        ∙ l.0,
    Lies-set data_ size w x ((i + 1) % size) ys room (omega arith) (omega arith)
        (e ∙ sym (ring_shift size i (length ys))) l.1,
  )
