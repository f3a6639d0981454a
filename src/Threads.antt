-- ===== src/Threads.antt =====
-- os161/kern/thread/thread.c: the thread system, over the arrays of array.c and the run queue of
-- scheduler.c. A thread is the address of its struct thread, a sleep address 0 is NULL. The kernel is
-- uniprocessor and the code below runs at a raised interrupt level, so each function is one step up
-- to the context switch: `switch_out` is mi_switch up to md_switch, and `switch_in` is what the
-- thread that md_switch goes to does of it then. The MMU is not modelled.
pub mod Wakeup
pub mod Switch
pub mod Fairness
pub mod Fork
pub mod Tests
use azurespider.Prelude.{
  ℕ, zero, suc, ◌+◌, ◌-◌, Bool, true, false, not, ◌&&◌, Option, none, some, List, [], ◌∷◌, ltb,
  ◌==◌, if◌then◌else◌, Run, ok, panic, fault, timeout, ◌>>=◌, ◌>>◌, assert,
}
use azurespider.Errno.{Code, Errno, is_ok, enomem}
use azurespider.Array
use azurespider.Array.{Array}
use azurespider.Queue.{Queue}
use azurespider.Scheduler

-- threadstate_t, less the state S_RUN, in which no thread is switched out.
pub data ThreadState : Type 0 where
  ready sleep zomb : ThreadState

-- Calls out of the thread system, in order.
pub data Call : Type 0 where
  as_destroy : ℕ → Call
  vop_incref : ℕ → Call
  vop_decref : ℕ → Call
  thread_free : ℕ → Call

-- The statics of thread.c, the scheduler's run queue, curspl, the fields of the struct threads that
-- the code below reads, and the calls made so far, the last one first. `stack_ok t` says that t has
-- no stack of its own or that the magic number at its bottom is intact.
pub record Threads : Type 0 where
  pub curthread : Option ℕ
  pub sleepers : Array ℕ
  pub zombies : Array ℕ
  pub numthreads : ℕ
  pub runqueue : Queue ℕ
  pub curspl : ℕ
  pub in_interrupt : ℕ
  pub t_sleepaddr : ℕ → ℕ
  pub t_vmspace : ℕ → Option ℕ
  pub t_cwd : ℕ → Option ℕ
  pub stack_ok : ℕ → Bool
  pub calls : List Call

abbrev pub update {ℓ} : {B : Type ℓ} → (ℕ → B) → ℕ → B → ℕ → B
update f t b u = if t == u then b else f u

abbrev is_null {ℓ} : {B : Type ℓ} → Option B → Bool
is_null none = true
is_null (some b) = false

-- z != curthread
abbrev pub other_than : Option ℕ → ℕ → Bool
other_than none z = true
other_than (some t) z = not (t == z)

-- thread_destroy
pub thread_destroy : Threads → ℕ → Run Threads
thread_destroy s z = do
  assert (other_than s.curthread z)
  assert (is_null (s.t_vmspace z))
  assert (is_null (s.t_cwd z))
  ok (record s { calls = thread_free z ∷ s.calls })

-- The loop of exorcise, over `rounds` zombies from i on.
pub exorcise_loop : ℕ → ℕ → Threads → Run Threads
exorcise_loop zero i s = ok s
exorcise_loop (suc rounds) i s = do
  z ← Array.getguy s.zombies i
  assert (other_than s.curthread z)
  s' ← thread_destroy s z
  exorcise_loop rounds (i + 1) s'

-- The loop of thread_hassleepers.
pub hassleepers_loop : ℕ → ℕ → Threads → ℕ → Run Bool
hassleepers_loop zero i s addr = ok false
hassleepers_loop (suc rounds) i s addr =
    let rest = hassleepers_loop rounds (i + 1) s addr in
    do t ← Array.getguy s.sleepers i; if s.t_sleepaddr t == addr then ok true else rest

-- thread_hassleepers
pub hassleepers : Threads → ℕ → Run Bool
hassleepers s addr = do assert (ltb 0 s.curspl); hassleepers_loop (Array.getnum s.sleepers) 0 s addr

module _ (kmalloc : ℕ → Bool) (junk : ℕ) where
  -- exorcise
  pub exorcise : Threads → Run Threads
  exorcise s = do
    assert (ltb 0 s.curspl)
    s' ← exorcise_loop (Array.getnum s.zombies) 0 s
    (result, zombies) ← Array.setsize kmalloc junk s'.zombies 0
    assert (is_ok result)
    ok (record s' { zombies = zombies })

  -- thread_killall
  pub killall : Threads → Run Threads
  killall s = do
    assert (ltb 0 s.curspl)
    (result, sleepers) ← Array.setsize kmalloc junk s.sleepers 0
    assert (is_ok result)
    ok (record s { sleepers = sleepers })

  -- thread_panic
  pub thread_panic : Threads → Run Threads
  thread_panic s = do
    assert (ltb 0 s.curspl)
    s' ← killall s
    (dropped, runqueue) ← Scheduler.killall s'.curspl s'.runqueue
    ok (record s' { runqueue = runqueue })

  -- The part of mi_switch that puts the old thread on the list for its next state.
  pub stash : ThreadState → ℕ → Threads → Run (Code × Threads)
  stash ready cur s = do
    (result, runqueue) ← Scheduler.make_runnable kmalloc junk s.curspl s.runqueue cur
    ok (result, record s { runqueue = runqueue })
  stash sleep cur s = do
    (result, sleepers) ← Array.add kmalloc junk s.sleepers cur
    ok (result, record s { sleepers = sleepers })
  stash zomb cur s = do
    (result, zombies) ← Array.add kmalloc junk s.zombies cur
    ok (result, record s { zombies = zombies })

  -- mi_switch up to md_switch. `wakes` is what interrupts make of the state while the scheduler
  -- finds the run queue empty.
  pub switch_out : ThreadState → List (Threads → Run Threads) → Threads → Run Threads
  switch_out state wakes s = do
    assert (ltb 0 s.curspl)
    elim s.curthread [
      | none ↦ ok s
      | some cur ↦ (do
        assert (s.stack_ok cur)
        (result, s') ← stash state cur (record s { curthread = none })
        assert (is_ok result)
        (next, s'') ←
            Scheduler.schedule (λ r. r.runqueue) (λ r q. record r { runqueue = q }) s'.curspl wakes
              s'
        ok (record s'' { curthread = some next }))
    ]

  -- What mi_switch does once md_switch is back in a thread.
  pub switch_in : Threads → Run Threads
  switch_in s = exorcise s

  -- thread_yield up to the switch; the splx at its end comes after it.
  pub yield_out : List (Threads → Run Threads) → Threads → Run Threads
  yield_out wakes s = switch_out ready wakes (record s { curspl = 1 })

  -- thread_sleep up to the switch, and from there on.
  pub sleep_out : ℕ → List (Threads → Run Threads) → Threads → Run Threads
  sleep_out addr wakes s = do
    assert (s.in_interrupt == 0)
    elim s.curthread [
      | none ↦ fault
      | some cur ↦ switch_out sleep wakes (record s { t_sleepaddr = update s.t_sleepaddr cur addr })
    ]

  pub sleep_in : Threads → Run Threads
  sleep_in s = do
    s' ← switch_in s
    elim s'.curthread [
      | none ↦ fault
      | some cur ↦ ok (record s' { t_sleepaddr = update s'.t_sleepaddr cur 0 })
    ]

  -- What thread_exit gives back before it switches.
  abbrev release_space : ℕ → Option ℕ → Threads → Threads
  release_space cur none s = s
  release_space cur (some space) s = record s {
    t_vmspace = update s.t_vmspace cur none;
    calls = as_destroy space ∷ s.calls;
  }

  abbrev release_cwd : ℕ → Option ℕ → Threads → Threads
  release_cwd cur none s = s
  release_cwd cur (some vnode) s = record s {
    t_cwd = update s.t_cwd cur none;
    calls = vop_decref vnode ∷ s.calls;
  }

  -- thread_exit up to the switch, which no thread comes back from.
  pub exit_out : List (Threads → Run Threads) → Threads → Run Threads
  exit_out wakes s = elim s.curthread [
    | none ↦ fault
    | some cur ↦ (do
      assert (s.stack_ok cur)
      let s1 = release_space cur (s.t_vmspace cur) (record s { curspl = 1 })
      let s2 = release_cwd cur (s1.t_cwd cur) s1
      assert (ltb 0 s2.numthreads)
      switch_out zomb wakes (record s2 { numthreads = s2.numthreads - 1 }))
  ]

  -- The loop of thread_wakeup. A thread that is taken out leaves the next one at the same index.
  pub wakeup_loop : ℕ → ℕ → ℕ → Threads → Run Threads
  wakeup_loop zero i addr s = if ltb i s.sleepers.num then timeout else ok s
  wakeup_loop (suc fuel) i addr s =
      let skip = wakeup_loop fuel (i + 1) addr s in
      let wake = λ (t : ℕ). (do
        sleepers ← Array.remove s.sleepers i
        (result, runqueue) ← Scheduler.make_runnable kmalloc junk s.curspl s.runqueue t
        assert (is_ok result)
        wakeup_loop fuel i addr (record s { sleepers = sleepers; runqueue = runqueue })) in
      let look = (do
        t ← Array.getguy s.sleepers i
        if s.t_sleepaddr t == addr then wake t else skip) in
      if ltb i (Array.getnum s.sleepers) then look else ok s

  -- thread_wakeup
  pub wakeup : ℕ → Threads → Run Threads
  wakeup addr s = do assert (ltb 0 s.curspl); wakeup_loop s.sleepers.num 0 addr s
