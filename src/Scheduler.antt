-- ===== src/Scheduler.antt =====
-- os161/kern/thread/scheduler.c: the round-robin run queue, a queue.c queue of threads.
-- A thread is the address of its struct thread. `curspl` is the interrupt level that the code tests.
pub mod Fifo
mod Tests
use azurespider.Prelude.{
  ℕ, zero, suc, Bool, none, some, List, [], ◌∷◌, ltb, if◌then◌else◌, Run, ok, panic, timeout, ◌>>=◌,
  ◌>>◌, assert,
}
use azurespider.Errno.{Code}
use azurespider.Queue
use azurespider.Queue.{Queue}

-- scheduler_bootstrap
pub bootstrap : (ℕ → Bool) → ℕ → Run (Queue ℕ)
bootstrap kmalloc junk = elim (Queue.create kmalloc junk 32) [ none ↦ panic | some q ↦ ok q ]

-- scheduler_preallocate
pub preallocate : (ℕ → Bool) → ℕ → ℕ → Queue ℕ → ℕ → Run (Code × Queue ℕ)
preallocate kmalloc junk curspl runqueue nthreads = do
  assert (ltb 0 curspl)
  Queue.preallocate kmalloc junk runqueue nthreads

-- make_runnable
pub make_runnable : (ℕ → Bool) → ℕ → ℕ → Queue ℕ → ℕ → Run (Code × Queue ℕ)
make_runnable kmalloc junk curspl runqueue t = do
  assert (ltb 0 curspl)
  Queue.addtail kmalloc junk runqueue t

-- The loop of scheduler_killall, with the threads that it drops.
pub killall_loop : ℕ → Queue ℕ → Run (List ℕ × Queue ℕ)
killall_loop zero q = if Queue.is_empty q then ok ([], q) else timeout
killall_loop (suc fuel) q =
    let rest = (do
      (t, q') ← Queue.remhead q
      (dropped, q'') ← killall_loop fuel q'
      ok (t ∷ dropped, q'')) in
    if Queue.is_empty q then ok ([], q) else rest

-- scheduler_killall
pub killall : ℕ → Queue ℕ → Run (List ℕ × Queue ℕ)
killall curspl q = do assert (ltb 0 curspl); killall_loop q.size q

-- scheduler_shutdown
pub shutdown : ℕ → Queue ℕ → Run (Unit {0})
shutdown curspl q = do (dropped, q') ← killall curspl q; assert (ltb 0 curspl); Queue.destroy q'

-- scheduler, in a system whose state S has the run queue as a part. While the queue is empty the cpu
-- idles; `wakes` is what the interrupts of each idle round make of the state, and the loop goes on for
-- as many rounds as it lists.
module _ {S : Type 0} (runqueue : S → Queue ℕ) (with_runqueue : S → Queue ℕ → S) where
  abbrev take_head : S → Run (ℕ × S)
  take_head s = do (t, q) ← Queue.remhead (runqueue s); ok (t, with_runqueue s q)

  pub schedule : ℕ → List (S → Run S) → S → Run (ℕ × S)
  schedule curspl [] s = do
    assert (ltb 0 curspl)
    if Queue.is_empty (runqueue s) then timeout else take_head s
  schedule curspl (wake ∷ wakes) s = do
    assert (ltb 0 curspl)
    let later = (do s' ← wake s; schedule curspl wakes s')
    if Queue.is_empty (runqueue s) then later else take_head s
