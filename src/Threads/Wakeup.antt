-- ===== src/Threads/Wakeup.antt =====
-- os161/kern/thread/thread.c: thread_wakeup moves exactly the sleepers on an address.
use azurespider.Prelude.{
  ℕ, zero, suc, ◌+◌, ◌≤◌, ◌<◌, ◌≡◌, refl, sym, subst, ap, ◌∙◌, inl, inr, Bool, true, false,
  Bool-cases, none, some, List, [], ◌∷◌, ◌++◌, append-nil, append_assoc, arith, ◌==◌, if◌then◌else◌,
  length, length-append, length-take, get_elem?, Run, ok,
}
use azurespider.Array
use azurespider.Array.{Array, block}
use azurespider.Array.Bounds.{IsValid, contents, remove_at}
use azurespider.Array.Calls.{getguy_lem, remove_lem}
use azurespider.Queue.{Queue}
use azurespider.Queue.Holds.{Holds}
use azurespider.Scheduler.{make_runnable}
use azurespider.Scheduler.Fifo.{make_runnable-room}
use azurespider.Threads.{Threads, wakeup_loop, wakeup}

-- The threads of a list that sleep on an address, and the others, in their order.
module _ (t_sleepaddr : ℕ → ℕ) (addr : ℕ) where
  abbrev pub on : List ℕ → List ℕ
  on [] = []
  on (t ∷ ts) = if t_sleepaddr t == addr then t ∷ on ts else on ts

  abbrev pub off : List ℕ → List ℕ
  off [] = []
  off (t ∷ ts) = if t_sleepaddr t == addr then off ts else t ∷ off ts

module _ (t_sleepaddr : ℕ → ℕ) (addr t : ℕ) (ts : List ℕ) where
  module _ (hit : (t_sleepaddr t == addr) ≡ true) where
    on-hit : on t_sleepaddr addr (t ∷ ts) ≡ t ∷ on t_sleepaddr addr ts
    on-hit = rw hit

    off-hit : off t_sleepaddr addr (t ∷ ts) ≡ off t_sleepaddr addr ts
    off-hit = rw hit

  module _ (miss : (t_sleepaddr t == addr) ≡ false) where
    on-miss : on t_sleepaddr addr (t ∷ ts) ≡ on t_sleepaddr addr ts
    on-miss = rw miss

    off-miss : off t_sleepaddr addr (t ∷ ts) ≡ t ∷ off t_sleepaddr addr ts
    off-miss = rw miss

get-middle : (xs ys : List ℕ) (x : ℕ) → get_elem? (xs ++ x ∷ ys) (length xs) ≡ some x
get-middle [] ys x = refl
get-middle (z ∷ xs) ys x = get-middle xs ys x

remove_at-middle : (xs ys : List ℕ) (x : ℕ) → remove_at (xs ++ x ∷ ys) (length xs) ≡ xs ++ ys
remove_at-middle [] ys x = refl
remove_at-middle (z ∷ xs) ys x = ap (◌∷◌ z) (remove_at-middle xs ys x)

pub length-contents {ℓ} : {A : Type ℓ} (a : Array A) → IsValid a → length (contents a) ≡ a.num
length-contents a v = rw length-take (omega (arith, v.num_in, v.room))

-- The sleeper behind those already looked at, and the array without it.
module _ (a : Array ℕ) (xs ys : List ℕ) (x : ℕ) (v : IsValid a)
    (e : contents a ≡ xs ++ x ∷ ys) where
  size-middle : length xs < a.num
  size-middle = omega (arith, length-contents a v, ap length e, length-append xs (x ∷ ys))

  getguy-middle : Array.getguy a (length xs) ≡ ok x
  getguy-middle = elim (getguy_lem a (length xs) v) [
    | inl (y, lt, g, r) ↦
        let found : some y ≡ some x =
          sym g ∙ ap (λ l. get_elem? l (length xs)) e ∙ get-middle xs ys x in
        ground (arith, r, found)
    | inr (ge, r) ↦ absurd (omega (arith, size-middle))
  ]

  remove-middle :
      (a' : Array ℕ) × (Array.remove a (length xs) ≡ ok a')
      × IsValid a'
      × (a'.max_ ≡ a.max_)
      × (contents a' ≡ xs ++ ys)
  remove-middle = elim (remove_lem a (length xs) v) [
    | inl (a', lt, r, v', same, c) ↦
        (a', r, v', same, c ∙ ap (λ l. remove_at l (length xs)) e ∙ remove_at-middle xs ys x)
    | inr (ge, r) ↦ absurd (omega (arith, size-middle))
  ]

module _ (kmalloc : ℕ → Bool) (junk : ℕ) (addr : ℕ) where
  -- What the loop leaves of a state whose remaining sleepers are xs.
  abbrev pub Woken : Threads → List ℕ → List ℕ → List ℕ → Run Threads → Type 0
  Woken s ys rs xs m =
      (a : Array ℕ) × (q : Queue ℕ) × (m ≡ ok (record s { sleepers = a; runqueue = q }))
      × IsValid a
      × (a.max_ ≡ s.sleepers.max_)
      × (contents a ≡ ys ++ off s.t_sleepaddr addr xs)
      × Holds q (rs ++ on s.t_sleepaddr addr xs)
      × (q.size ≡ s.runqueue.size)

  last :
      (fuel : ℕ) (s : Threads) (ys : List ℕ)
      → IsValid s.sleepers
      → contents s.sleepers ≡ ys ++ []
      → wakeup_loop kmalloc junk fuel (length ys) addr s ≡ ok s
  unfolding wakeup_loop Array.getnum
  last zero s ys v e =
      ground (arith, length-contents s.sleepers v, ap length e, length-append ys [])
  last (suc n) s ys v e =
      ground (arith, length-contents s.sleepers v, ap length e, length-append ys [])

  -- One round that wakes the thread it looks at, and one that does not.
  wakes-one :
      (fuel : ℕ) (s : Threads) (ys xs : List ℕ) (x : ℕ) (a : Array ℕ) (q : Queue ℕ)
      → length ys < s.sleepers.num
      → Array.getguy s.sleepers (length ys) ≡ ok x
      → (s.t_sleepaddr x == addr) ≡ true
      → Array.remove s.sleepers (length ys) ≡ ok a
      → make_runnable kmalloc junk s.curspl s.runqueue x ≡ ok (none, q)
      → wakeup_loop kmalloc junk (suc fuel) (length ys) addr s
        ≡ wakeup_loop kmalloc junk fuel (length ys) addr (record s { sleepers = a; runqueue = q })
  unfolding wakeup_loop Array.getnum
  wakes-one fuel s ys xs x a q lt g hit r m = ground (arith, g, hit, r, m)

  skips-one :
      (fuel : ℕ) (s : Threads) (ys xs : List ℕ) (x : ℕ)
      → length ys < s.sleepers.num
      → Array.getguy s.sleepers (length ys) ≡ ok x
      → (s.t_sleepaddr x == addr) ≡ false
      → wakeup_loop kmalloc junk (suc fuel) (length ys) addr s
        ≡ wakeup_loop kmalloc junk fuel (length (ys ++ x ∷ [])) addr s
  unfolding wakeup_loop Array.getnum
  skips-one fuel s ys xs x lt g miss = rw length-append (ground (arith, g, miss))

  wakeup_loop_lem :
      (xs : List ℕ) (fuel : ℕ) (s : Threads) (ys rs : List ℕ)
      → length xs ≤ fuel
      → 0 < s.curspl
      → IsValid s.sleepers
      → contents s.sleepers ≡ ys ++ xs
      → Holds s.runqueue rs
      → length rs + length (on s.t_sleepaddr addr xs) < s.runqueue.size
      → Woken s ys rs xs (wakeup_loop kmalloc junk fuel (length ys) addr s)
  wakeup_loop_lem [] fuel s ys rs enough spl v e h room =
      (s.sleepers, s.runqueue, last fuel s ys v e, v, refl, e, rw append-nil h, refl)
  wakeup_loop_lem (x ∷ xs) zero s ys rs enough spl v e h room = absurd (omega arith)
  wakeup_loop_lem (x ∷ xs) (suc fuel) s ys rs enough spl v e h room =
      let guy = getguy-middle s.sleepers ys xs x v e in
      let lt = size-middle s.sleepers ys xs x v e in
      elim (Bool-cases (s.t_sleepaddr x == addr)) [
        | inl hit ↦
            let room' = rw (on-hit s.t_sleepaddr addr x xs hit) at room in
            let (a1, r1, v1, max1, c1) = remove-middle s.sleepers ys xs x v e in
            let (q1, r2, h1, s1) =
              make_runnable-room kmalloc junk s.curspl s.runqueue rs x spl h (omega arith) in
            let (a2, q2, r3, v2, max2, c2, h2, s2) =
              wakeup_loop_lem xs fuel (record s { sleepers = a1; runqueue = q1 }) ys (rs ++ x ∷ [])
                (omega arith) spl v1 c1 h1 (rw (length-append, s1) (omega arith)) in
            (
              a2,
              q2,
              wakes-one fuel s ys xs x a1 q1 lt guy hit r1 r2 ∙ r3,
              v2,
              max2 ∙ max1,
              c2 ∙ ap (◌++◌ ys) (sym (off-hit s.t_sleepaddr addr x xs hit)),
              subst (Holds q2)
                  (append_assoc rs (x ∷ []) (on s.t_sleepaddr addr xs)
                    ∙ ap (◌++◌ rs) (sym (on-hit s.t_sleepaddr addr x xs hit)))
                  h2,
              s2 ∙ s1,
            )
        | inr miss ↦
            let room' = rw (on-miss s.t_sleepaddr addr x xs miss) at room in
            let (a2, q2, r3, v2, max2, c2, h2, s2) =
              wakeup_loop_lem xs fuel s (ys ++ x ∷ []) rs (omega arith) spl v
                (e ∙ sym (append_assoc ys (x ∷ []) xs)) h room' in
            (
              a2,
              q2,
              skips-one fuel s ys xs x lt guy miss ∙ r3,
              v2,
              max2,
              c2
                  ∙ append_assoc ys (x ∷ []) (off s.t_sleepaddr addr xs)
                  ∙ ap (◌++◌ ys) (sym (off-miss s.t_sleepaddr addr x xs miss)),
              subst (Holds q2) (ap (◌++◌ rs) (sym (on-miss s.t_sleepaddr addr x xs miss))) h2,
              s2,
            )
      ]

  -- thread_wakeup takes exactly the threads that sleep on the address out of sleepers and puts them
  -- at the end of the run queue, both in order, and changes nothing else. With room in the run queue
  -- it never trips its assertion, and needs no memory.
  pub wakeup_lem :
      (s : Threads) (rs : List ℕ)
      → 0 < s.curspl
      → IsValid s.sleepers
      → Holds s.runqueue rs
      → length rs + length (on s.t_sleepaddr addr (contents s.sleepers)) < s.runqueue.size
      → Woken s [] rs (contents s.sleepers) (wakeup kmalloc junk addr s)
  unfolding wakeup
  wakeup_lem s rs spl v h room =
      let (a, q, r, v', max, c, h', same) =
        wakeup_loop_lem (contents s.sleepers) s.sleepers.num s [] rs
          (omega (arith, length-contents s.sleepers v)) spl v refl h room in
      (a, q, ground (arith, r), v', max, c, h', same)
