-- ===== src/Synch.antt =====
-- os161/kern/thread/synch.c: semaphores and locks, over the thread system. A call that may sleep is a
-- step up to the context switch and one for each time that the thread runs again. `addr` is the
-- address of the semaphore or lock. The names, and the cv_* functions, which do nothing but hold a
-- name, are not modelled.
pub mod Waiting
pub mod Mutex
mod Tests
use azurespider.Prelude.{
  ℕ, ◌+◌, ◌-◌, ◌^◌, Bool, true, false, not, Option, none, some, List, ltb, ◌==◌, if◌then◌else◌, Run,
  ok, panic, fault, ◌>>=◌, ◌>>◌, assert,
}
use azurespider.Threads.{Threads, hassleepers, wakeup, sleep_out, sleep_in}

-- struct semaphore and struct lock. A count is an int that is never negative.
pub record Semaphore : Type 0 where
  pub count : ℕ

pub record Lock : Type 0 where
  pub lock_ : ℕ
  pub owner : Option ℕ

-- How far a call that may sleep has come: the thread is switched out in thread_sleep, or the call has
-- returned.
pub data Progress : Type 0 where
  asleep returned : Progress

-- lock->owner == curthread, also when both are NULL.
abbrev pub same_thread : Option ℕ → Option ℕ → Bool
same_thread none none = true
same_thread none (some b) = false
same_thread (some a) none = false
same_thread (some a) (some b) = a == b

-- sem_create, lock_create: `strdup` says whether kstrdup succeeds.
pub sem_create : (ℕ → Bool) → Bool → ℕ → Option Semaphore
sem_create kmalloc strdup initial_count =
    if kmalloc 8 then (if strdup then some (record { count = initial_count }) else none) else none

pub lock_create : (ℕ → Bool) → Bool → Option Lock
lock_create kmalloc strdup =
    if kmalloc 12
    then (if strdup then some (record { lock_ = 1; owner = none }) else none)
    else none

-- sem_destroy, lock_destroy up to the kfrees
pub sem_destroy : ℕ → Threads → Run Threads
sem_destroy addr s = do found ← hassleepers (record s { curspl = 1 }) addr; assert (not found); ok s

pub lock_destroy : Lock → Run Lock
lock_destroy lock = do assert (lock.lock_ == 1); ok (record lock { owner = none })

-- lock_do_i_hold
pub lock_do_i_hold : Lock → Threads → Bool
lock_do_i_hold lock s = same_thread lock.owner s.curthread

module _ (kmalloc : ℕ → Bool) (junk : ℕ) (addr : ℕ) where
  -- P from the test of its loop on. `spl` is the interrupt level that the splx at the end restores.
  pub p_loop :
      ℕ → List (Threads → Run Threads) → Semaphore → Threads → Run (Progress × Semaphore × Threads)
  p_loop spl wakes sem s =
      let block = (do s' ← sleep_out kmalloc junk addr wakes s; ok (asleep, sem, s')) in
      let take_one = (do
        assert (ltb 0 sem.count)
        ok (returned, record { count = sem.count - 1 }, record s { curspl = spl })) in
      if sem.count == 0 then block else take_one

  -- P
  pub p : List (Threads → Run Threads) → Semaphore → Threads → Run (Progress × Semaphore × Threads)
  p wakes sem s = do
    assert (s.in_interrupt == 0)
    p_loop s.curspl wakes sem (record s { curspl = 1 })

  -- P after a thread_sleep in it
  pub p_again :
      ℕ → List (Threads → Run Threads) → Semaphore → Threads → Run (Progress × Semaphore × Threads)
  p_again spl wakes sem s = do s' ← sleep_in kmalloc junk s; p_loop spl wakes sem s'

  -- V
  pub v : Semaphore → Threads → Run (Semaphore × Threads)
  v sem s =
      let wake = (do
        assert (ltb 0 (sem.count + 1))
        s' ← wakeup kmalloc junk addr (record s { curspl = 1 })
        ok (record { count = sem.count + 1 }, record s' { curspl = s.curspl })) in
      if ltb (sem.count + 1) (2 ^ 31) then wake else fault

  -- lock_acquire from the test of its loop on
  pub acquire_loop :
      ℕ → List (Threads → Run Threads) → Lock → Threads → Run (Progress × Lock × Threads)
  acquire_loop spl wakes lock s =
      let block = (do s' ← sleep_out kmalloc junk addr wakes s; ok (asleep, lock, s')) in
      let take_it = (do
        assert (lock.lock_ == 1)
        ok (returned, record { lock_ = 0; owner = s.curthread }, record s { curspl = spl })) in
      if lock.lock_ == 0 then block else take_it

  -- lock_acquire
  pub lock_acquire : List (Threads → Run Threads) → Lock → Threads → Run (Progress × Lock × Threads)
  lock_acquire wakes lock s =
      let go = acquire_loop s.curspl wakes lock (record s { curspl = 1 }) in
      if same_thread lock.owner s.curthread then panic else go

  -- lock_acquire after a thread_sleep in it
  pub acquire_again :
      ℕ → List (Threads → Run Threads) → Lock → Threads → Run (Progress × Lock × Threads)
  acquire_again spl wakes lock s = do s' ← sleep_in kmalloc junk s; acquire_loop spl wakes lock s'

  -- lock_release by curthread. Its first assertion, of `lock->owner = curthread`, assigns: it fails
  -- only if curthread is NULL.
  pub release_by : Option ℕ → Threads → Run (Lock × Threads)
  release_by none s = panic
  release_by (some cur) s = do
    s' ← wakeup kmalloc junk addr (record s { curspl = 1 })
    ok (record { lock_ = 1; owner = none }, record s' { curspl = s.curspl })

  -- lock_release
  pub lock_release : Lock → Threads → Run (Lock × Threads)
  lock_release lock s = release_by s.curthread s
