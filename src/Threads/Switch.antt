-- ===== src/Threads/Switch.antt =====
-- os161/kern/thread/thread.c: thread_yield, thread_sleep and thread_exit up to the context switch.
use azurespider.Prelude.{
  ℕ, suc, ◌+◌, ◌≤◌, ◌<◌, ◌≡◌, refl, subst, ap, ◌∙◌, Bool, true, none, some, List, [], ◌∷◌, ◌++◌,
  arith, length, length-append, Run, ok,
}
use azurespider.Array.{Array}
use azurespider.Array.Bounds.{IsValid, contents}
use azurespider.Array.Calls.{add-room}
use azurespider.Queue.{Queue}
use azurespider.Queue.Holds.{Holds}
use azurespider.Scheduler.Fifo.{make_runnable-room, schedule_head}
use azurespider.Threads.{
  Threads, ThreadState, ready, sleep, stash, switch_out, yield_out, sleep_out, wakeup, update,
}
use azurespider.Threads.Wakeup.{length-contents, on, off, wakeup_lem}

-- The invariant of the thread system, with the runnable threads rs and the sleepers ss in order: every
-- live thread is in one of the two or is the current one, and there is room in both lists for all.
pub record Inv (s : Threads) (cur : ℕ) (rs ss : List ℕ) : Type 0 where
  pub running : s.curthread ≡ some cur
  pub runnable : Holds s.runqueue rs
  pub valid : IsValid s.sleepers
  pub asleep : contents s.sleepers ≡ ss
  pub count : suc (length rs + length ss) ≡ s.numthreads
  pub sleep_room : s.numthreads ≤ s.sleepers.max_
  pub run_room : s.numthreads < s.runqueue.size
  pub stacks : (t : ℕ) → s.stack_ok t ≡ true

module _ (kmalloc : ℕ → Bool) (junk : ℕ) (wakes : List (Threads → Run Threads)) where
  -- The end of a switch: the oldest runnable thread becomes the current one.
  switch-to :
      (state : ThreadState) (s s1 : Threads) (cur t : ℕ) (ts : List ℕ)
      → 0 < s.curspl
      → 0 < s1.curspl
      → s.curthread ≡ some cur
      → s.stack_ok cur ≡ true
      → stash kmalloc junk state cur (record s { curthread = none }) ≡ ok (none, s1)
      → Holds s1.runqueue (t ∷ ts)
      → (q : Queue ℕ) × (switch_out kmalloc junk state wakes s
          ≡ ok (record s1 { curthread = some t; runqueue = q }))
        × Holds q ts
        × (q.size ≡ s1.runqueue.size)
  unfolding switch_out
  switch-to state s s1 cur t ts spl spl1 run ok_stack st h =
      let (q, e, h', same) =
        schedule_head (λ (r : Threads). r.runqueue) (λ r q. record r { runqueue = q }) s1.curspl
          wakes s1 t ts spl1 h in
      (q, ground (arith, run, ok_stack, st, e), h', same)

  stash-ready :
      (s : Threads) (cur : ℕ) (rs : List ℕ)
      → 0 < s.curspl
      → Holds s.runqueue rs
      → suc (length rs) < s.runqueue.size
      → (q : Queue ℕ) × (stash kmalloc junk ready cur s ≡ ok (none, record s { runqueue = q }))
        × Holds q (rs ++ cur ∷ [])
        × (q.size ≡ s.runqueue.size)
  unfolding stash
  stash-ready s cur rs spl h room =
      let (q, e, h', same) =
        make_runnable-room kmalloc junk s.curspl s.runqueue rs cur spl h room in
      (q, ground (arith, e), h', same)

  -- thread_yield puts the current thread behind all runnable ones and runs the first: nobody sleeps or
  -- wakes, and the invariant holds again.
  pub yield_lem :
      (s : Threads) (cur t : ℕ) (rs ts ss : List ℕ)
      → Inv s cur rs ss
      → rs ++ cur ∷ [] ≡ t ∷ ts
      → (s' : Threads) × (yield_out kmalloc junk wakes s ≡ ok s')
        × Inv s' t ts ss
        × (s'.t_sleepaddr ≡ s.t_sleepaddr)
  unfolding yield_out
  yield_lem s cur t rs ts ss v e =
      let s0 : Threads = record s { curspl = 1; curthread = none } in
      let (q1, e1, h1, same1) =
        stash-ready s0 cur rs (omega arith) v.runnable (omega (arith, v.count, v.run_room)) in
      let (q2, e2, h2, same2) =
        switch-to ready (record s { curspl = 1 }) (record s0 { runqueue = q1 }) cur t ts
          (omega arith) (omega arith) v.running (v.stacks cur) e1 (subst (Holds q1) e h1) in
      (
        record s { curspl = 1; curthread = some t; runqueue = q2 },
        e2,
        record {
          running = refl;
          runnable = h2;
          valid = v.valid;
          asleep = v.asleep;
          count = omega (arith, v.count, ap length e, length-append rs (cur ∷ []));
          sleep_room = v.sleep_room;
          run_room = omega (arith, v.run_room, same1, same2);
          stacks = v.stacks;
        },
        refl,
      )

  stash-sleep :
      (s : Threads) (cur : ℕ) (ss : List ℕ)
      → IsValid s.sleepers
      → contents s.sleepers ≡ ss
      → length ss < s.sleepers.max_
      → (a : Array ℕ) × (stash kmalloc junk sleep cur s ≡ ok (none, record s { sleepers = a }))
        × IsValid a
        × (contents a ≡ ss ++ cur ∷ [])
        × (a.max_ ≡ s.sleepers.max_)
  unfolding stash
  stash-sleep s cur ss v e room =
      let (a, r, v', same, c) =
        add-room kmalloc junk s.sleepers cur v
          (omega (arith, length-contents s.sleepers v, ap length e)) in
      (a, ground (arith, r), v', c ∙ ap (λ l. l ++ cur ∷ []) e, same)

  -- thread_sleep puts the current thread, marked with the address, behind all sleepers, and runs the
  -- first runnable thread at once. The other threads' sleep addresses stay.
  pub sleep_lem :
      (s : Threads) (cur addr t : ℕ) (ts ss : List ℕ)
      → 0 < s.curspl
      → s.in_interrupt ≡ 0
      → Inv s cur (t ∷ ts) ss
      → (s' : Threads) × (sleep_out kmalloc junk addr wakes s ≡ ok s')
        × Inv s' t ts (ss ++ cur ∷ [])
        × (s'.t_sleepaddr ≡ update s.t_sleepaddr cur addr)
  unfolding sleep_out
  sleep_lem s cur addr t ts ss spl calm v =
      let s0 : Threads = record s { t_sleepaddr = update s.t_sleepaddr cur addr } in
      let (a, e1, v1, c1, max1) =
        stash-sleep (record s0 { curthread = none }) cur ss v.valid v.asleep
          (omega (arith, v.count, v.sleep_room)) in
      let (q, e2, h2, same2) =
        switch-to sleep s0 (record s0 { curthread = none; sleepers = a }) cur t ts spl spl v.running
          (v.stacks cur) e1 v.runnable in
      (
        record s0 { curthread = some t; sleepers = a; runqueue = q },
        ground (arith, calm, v.running, e2),
        record {
          running = refl;
          runnable = h2;
          valid = v1;
          asleep = c1;
          count = omega (arith, v.count, length-append ss (cur ∷ []));
          sleep_room = omega (arith, v.sleep_room, max1);
          run_room = omega (arith, v.run_room, same2);
          stacks = v.stacks;
        },
        refl,
      )

length-on-off :
    (t_sleepaddr : ℕ → ℕ) (addr : ℕ) (ts : List ℕ)
    → length (on t_sleepaddr addr ts) + length (off t_sleepaddr addr ts) ≡ length ts
length-on-off f addr [] = refl
length-on-off f addr (t ∷ ts) = ground (arith, length-on-off f addr ts)

-- thread_wakeup keeps the invariant: the sleepers on the address, and no others, become runnable
-- behind the runnable threads, also if kmalloc refuses every request.
pub wakeup-Inv :
    (kmalloc : ℕ → Bool) (junk : ℕ) (s : Threads) (cur addr : ℕ) (rs ss : List ℕ)
    → 0 < s.curspl
    → Inv s cur rs ss
    → (s' : Threads) × (wakeup kmalloc junk addr s ≡ ok s')
      × Inv s' cur (rs ++ on s.t_sleepaddr addr ss) (off s.t_sleepaddr addr ss)
      × (s'.t_sleepaddr ≡ s.t_sleepaddr)
wakeup-Inv kmalloc junk s cur addr rs ss spl v =
    let f = s.t_sleepaddr in
    let same_on = ap (on f addr) v.asleep in
    let (a, q, e, v', max, c, h, size) =
      wakeup_lem kmalloc junk addr s rs spl v.valid v.runnable
        (omega (arith, ap length same_on, length-on-off f addr ss, v.count, v.run_room)) in
    (
      record s { sleepers = a; runqueue = q },
      e,
      record {
        running = v.running;
        runnable = subst (λ l. Holds q (rs ++ l)) same_on h;
        valid = v';
        asleep = c ∙ ap (off f addr) v.asleep;
        count = omega (arith, v.count, length-on-off f addr ss, length-append rs (on f addr ss));
        sleep_room = omega (arith, v.sleep_room, max);
        run_room = omega (arith, v.run_room, size);
        stacks = v.stacks;
      },
      refl,
    )
