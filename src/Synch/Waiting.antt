-- ===== src/Synch/Waiting.antt =====
-- os161/kern/thread/synch.c: P and V, and who sleeps on a semaphore.
use azurespider.Prelude.{
  ℕ, ◌+◌, ◌-◌, ◌^◌, ◌<◌, ◌≡◌, refl, ap, ◌∙◌, ◌⊎◌, inl, inr, Bool, Bool-cases, List, [], ◌∷◌, ◌++◌,
  dec_lt, arith, ◌==◌, Run, ok,
}
use azurespider.Threads.{Threads, update}
use azurespider.Threads.Wakeup.{on, off}
use azurespider.Threads.Switch.{Inv, sleep_lem, wakeup-Inv}
use azurespider.Synch.{Semaphore, asleep, returned, p_loop, p, v}

-- The invariant does not depend on the interrupt level.
pub at_level :
    (s : Threads) (cur : ℕ) (rs ss : List ℕ) (n : ℕ)
    → Inv s cur rs ss
    → Inv (record s { curspl = n }) cur rs ss
at_level s cur rs ss n i = record {
  running = i.running;
  runnable = i.runnable;
  valid = i.valid;
  asleep = i.asleep;
  count = i.count;
  sleep_room = i.sleep_room;
  run_room = i.run_room;
  stacks = i.stacks;
}

-- Nobody is left on an address that was woken.
pub on-off : (f : ℕ → ℕ) (addr : ℕ) (ss : List ℕ) → on f addr (off f addr ss) ≡ []
on-off f addr [] = refl
on-off f addr (t ∷ ss) = elim (Bool-cases (f t == addr)) [
  | inl hit ↦ rw hit (on-off f addr ss)
  | inr miss ↦ rw (miss, miss) (on-off f addr ss)
]

module _ (kmalloc : ℕ → Bool) (junk : ℕ) (addr : ℕ) where
  -- P returns at once with one less when the count is positive, and nothing else changes; at 0 it puts
  -- the current thread, marked with the semaphore, behind the sleepers, and runs the next one.
  pub p_lem :
      (wakes : List (Threads → Run Threads)) (sem : Semaphore) (s : Threads) (cur t : ℕ)
      (ts ss : List ℕ)
      → s.in_interrupt ≡ 0
      → Inv s cur (t ∷ ts) ss
      → ((0 < sem.count)
          × (p kmalloc junk addr wakes sem s ≡ ok (returned, record { count = sem.count - 1 }, s)))
        ⊎ ((sem.count ≡ 0)
            × (s' : Threads) × (p kmalloc junk addr wakes sem s ≡ ok (asleep, sem, s'))
            × Inv s' t ts (ss ++ cur ∷ [])
            × (s'.t_sleepaddr ≡ update s.t_sleepaddr cur addr))
  unfolding p p_loop
  p_lem wakes sem s cur t ts ss calm i = elim (dec_lt 0 sem.count) [
    | yes pos ↦ inl (pos, ground (arith, calm, pos))
    | no zero_count ↦
        let (s', r, i', f) =
          sleep_lem kmalloc junk wakes (record s { curspl = 1 }) cur addr t ts ss (omega arith) calm
            (at_level s cur (t ∷ ts) ss 1 i) in
        inr (omega (arith, zero_count), s', ground (arith, calm, zero_count, r), i', f)
  ]

  -- V adds one and makes exactly the threads that sleep on the semaphore runnable, behind the runnable
  -- ones: nobody sleeps on it afterwards, so no wakeup is lost. V never sleeps and needs no memory.
  pub v_lem :
      (sem : Semaphore) (s : Threads) (cur : ℕ) (rs ss : List ℕ)
      → sem.count + 1 < 2 ^ 31
      → Inv s cur rs ss
      → (s' : Threads) × (v kmalloc junk addr sem s ≡ ok (record { count = sem.count + 1 }, s'))
        × Inv s' cur (rs ++ on s.t_sleepaddr addr ss) (off s.t_sleepaddr addr ss)
        × (on s'.t_sleepaddr addr (off s.t_sleepaddr addr ss) ≡ [])
        × (s'.curspl ≡ s.curspl)
  unfolding v
  v_lem sem s cur rs ss room i =
      let (s', r, i', f) =
        wakeup-Inv kmalloc junk (record s { curspl = 1 }) cur addr rs ss (omega arith)
          (at_level s cur rs ss 1 i) in
      (
        record s' { curspl = s.curspl },
        ground (arith, room, r),
        at_level s' cur (rs ++ on s.t_sleepaddr addr ss) (off s.t_sleepaddr addr ss) s.curspl i',
        ap (λ g. on g addr (off s.t_sleepaddr addr ss)) f ∙ on-off s.t_sleepaddr addr ss,
        refl,
      )
