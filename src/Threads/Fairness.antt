-- ===== src/Threads/Fairness.antt =====
-- os161/kern/thread/thread.c: round robin by thread_yield, and what it does when the run queue is full.
use azurespider.Prelude.{
  ℕ, zero, suc, ◌^◌, ◌<◌, ◌≡◌, refl, sym, subst, subst₂, ap, ◌∙◌, Bool, true, false, some, List, [],
  ◌∷◌, ◌++◌, append-nil, append_assoc, arith, length, Run, ok, panic, ◌>>=◌,
}
use azurespider.Queue.Holds.{Holds}
use azurespider.Scheduler.Fifo.{make_runnable-refused}
use azurespider.Threads.{Threads, stash, switch_out, yield_out}
use azurespider.Threads.Switch.{Inv, yield_lem}

snoc-cons : (ts : List ℕ) (c : ℕ) → (u : ℕ) × (us : List ℕ) × (ts ++ c ∷ [] ≡ u ∷ us)
snoc-cons [] c = (c, [], refl)
snoc-cons (t ∷ ts) c = (t, ts ++ c ∷ [], refl)

cons-head : (x y : ℕ) (xs ys : List ℕ) → x ∷ xs ≡ y ∷ ys → x ≡ y
cons-head x y xs ys e = cc

cons-tail : (x y : ℕ) (xs ys : List ℕ) → x ∷ xs ≡ y ∷ ys → xs ≡ ys
cons-tail x y xs ys e = cc

module _ (kmalloc : ℕ → Bool) (junk : ℕ) (wakes : List (Threads → Run Threads)) where
  -- n yields, each by the thread that runs then.
  pub yields : ℕ → Threads → Run Threads
  yields zero s = ok s
  yields (suc n) s = do s' ← yield_out kmalloc junk wakes s; yields n s'

  -- If the threads only yield, each runs when those before it in the run queue have had their turn,
  -- and the order stays.
  pub yields_lem :
      (xs ys : List ℕ) (t : ℕ) (s : Threads) (cur : ℕ) (rs ss : List ℕ)
      → Inv s cur rs ss
      → cur ∷ rs ≡ xs ++ t ∷ ys
      → (s' : Threads) × (yields (length xs) s ≡ ok s') × Inv s' t (ys ++ xs) ss
  unfolding yields
  yields_lem [] ys t s cur rs ss v e = (
    s,
    refl,
    subst₂ (λ c r. Inv s c r ss) (cons-head cur t rs ys e)
        (cons-tail cur t rs ys e ∙ sym (append-nil ys)) v,
  )
  yields_lem (x ∷ xs) ys t s cur rs ss v e =
      let (u, us, split) = snoc-cons rs cur in
      let (s1, e1, v1, same) = yield_lem kmalloc junk wakes s cur u rs us ss v split in
      let (s2, e2, v2) = yields_lem xs (ys ++ cur ∷ []) t s1 u us ss v1 (
        sym split
        ∙ ap (λ l. l ++ cur ∷ []) (cons-tail cur x rs (xs ++ t ∷ ys) e)
        ∙ append_assoc xs (t ∷ ys) (cur ∷ [])) in
      (
        s2,
        ground (arith, e1, e2),
        subst (λ l. Inv s2 t l ss)
            (append_assoc ys (cur ∷ []) xs
              ∙ ap (λ c. ys ++ c ∷ xs) (cons-head cur x rs (xs ++ t ∷ ys) e))
            v2,
      )

  -- With a run queue that holds one pointer fewer than its ring has cells, thread_yield needs memory,
  -- and panics where kmalloc refuses it.
  pub yield-full :
      (s : Threads) (cur : ℕ) (rs : List ℕ)
      → s.curthread ≡ some cur
      → s.stack_ok cur ≡ true
      → Holds s.runqueue rs
      → suc (length rs) ≡ s.runqueue.size
      → s.runqueue.size < 2 ^ 29
      → ((n : ℕ) → kmalloc n ≡ false)
      → yield_out kmalloc junk wakes s ≡ panic
  unfolding yield_out switch_out stash
  yield-full s cur rs run stack h full small refused = ground (
    arith,
    run,
    stack,
    make_runnable-refused kmalloc junk 1 s.runqueue rs cur refused (omega arith) h full small,
  )
