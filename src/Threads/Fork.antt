-- ===== src/Threads/Fork.antt =====
-- os161/kern/thread/thread.c: thread_fork.
use azurespider.Prelude.{
  ◌++◌, [], ◌≢◌, ◌≤◌, ◌⊎◌, ◌≡◌, List, ℕ, ◌+◌, Bool, true, false, Option, none, some, ◌∷◌, Run, ok,
  fault, ◌>>=◌,
}
use azurespider.Errno.{Code, Errno, enomem}
use azurespider.Array
use azurespider.Array.{Array}
use azurespider.Array.Bounds.{contents}
use azurespider.Queue.{Queue}
use azurespider.Queue.Holds.{Holds}
use azurespider.Scheduler
use azurespider.Threads.{Call, Threads, vop_incref, vop_decref, update}

module _ (kmalloc : ℕ → Bool) (junk : ℕ) where
  -- thread_fork with interrupts off, from the new thread's stack on: `newguy` is its address.
  -- md_initpcb is not modelled. The splx(s) at the end restores `curspl`.
  abbrev incref_cwd : Option ℕ → List Call → List Call
  incref_cwd none calls = calls
  incref_cwd (some vnode) calls = vop_incref vnode ∷ calls

  abbrev inherit_cwd : ℕ → ℕ → Threads → Threads
  inherit_cwd cur newguy s = record s {
    t_cwd = update s.t_cwd newguy (s.t_cwd cur);
    calls = incref_cwd (s.t_cwd cur) s.calls;
  }

  -- The end of thread_fork at the label `fail`.
  abbrev decref_cwd : Option ℕ → List Call → List Call
  decref_cwd none calls = calls
  decref_cwd (some vnode) calls = vop_decref vnode ∷ calls

  abbrev fork_fail : ℕ → ℕ → Errno → Threads → Code × Threads
  fork_fail oldspl newguy e s =
      (some e, record s { curspl = oldspl; calls = decref_cwd (s.t_cwd newguy) s.calls })

  -- Each step of thread_fork that may fail, with the jump to `fail`.
  abbrev or_fail : ℕ → ℕ → Code × Threads → (Threads → Run (Code × Threads)) → Run (Code × Threads)
  or_fail oldspl newguy (some e, s) next = ok (fork_fail oldspl newguy e s)
  or_fail oldspl newguy (none, s) next = next s

  abbrev with_sleepers : Threads → Code × Array ℕ → Code × Threads
  with_sleepers s (result, a) = (result, record s { sleepers = a })

  abbrev with_zombies : Threads → Code × Array ℕ → Code × Threads
  with_zombies s (result, a) = (result, record s { zombies = a })

  abbrev with_runqueue : Threads → Code × Queue ℕ → Code × Threads
  with_runqueue s (result, q) = (result, record s { runqueue = q })

  fork_make_runnable : ℕ → ℕ → Threads → Run (Code × Threads)
  fork_make_runnable oldspl newguy s = do
    r ← Scheduler.make_runnable kmalloc junk s.curspl s.runqueue newguy
    or_fail oldspl newguy (with_runqueue s r)
        λ s'. ok (none, record s' { numthreads = s'.numthreads + 1; curspl = oldspl })

  fork_preallocate : ℕ → ℕ → Threads → Run (Code × Threads)
  unfolding fork_make_runnable
  fork_preallocate oldspl newguy s = do
    r ← Array.preallocate kmalloc junk s.sleepers (s.numthreads + 1)
    or_fail oldspl newguy (with_sleepers s r) λ s1. (do
      r1 ← Array.preallocate kmalloc junk s1.zombies (s1.numthreads + 1)
      or_fail oldspl newguy (with_zombies s1 r1) λ s2. (do
        r2 ← Scheduler.preallocate kmalloc junk s2.curspl s2.runqueue (s2.numthreads + 1)
        or_fail oldspl newguy (with_runqueue s2 r2) (fork_make_runnable oldspl newguy)))

  -- thread_fork from the new thread's stack on, by curthread.
  fork_by : Option ℕ → ℕ → Threads → Run (Code × Threads)
  fork_by none newguy s = fault
  fork_by (some cur) newguy s =
      let s1 = inherit_cwd cur newguy (record s {
        t_sleepaddr = update s.t_sleepaddr newguy 0;
        t_vmspace = update s.t_vmspace newguy none;
        stack_ok = update s.stack_ok newguy true;
      }) in
      fork_preallocate s.curspl newguy (record s1 { curspl = 1 })

  -- thread_fork. `newguy` is what thread_create returns, `none` for NULL, and `stack` whether the
  -- stack is allocated.
  pub fork : Option ℕ → Bool → Threads → Run (Code × Threads)
  fork none stack s = ok (some enomem, s)
  fork (some newguy) false s = ok (some enomem, s)
  fork (some newguy) true s = fork_by s.curthread newguy s

  -- What a thread_fork that fails leaves.
  pub record Unforked (s s' : Threads) (cur : ℕ) (rs : List ℕ) : Type 0 where
    pub number : s'.numthreads ≡ s.numthreads
    pub current : s'.curthread ≡ s.curthread
    pub level : s'.curspl ≡ s.curspl
    pub logged : s'.calls ≡ decref_cwd (s.t_cwd cur) (incref_cwd (s.t_cwd cur) s.calls)
    pub runnable : Holds s'.runqueue rs
    pub asleep : contents s'.sleepers ≡ contents s.sleepers
    pub dead : contents s'.zombies ≡ contents s.zombies

  -- What one that succeeds leaves.
  pub record Child (s s' : Threads) (cur newguy : ℕ) (rs : List ℕ) : Type 0 where
    pub number : s'.numthreads ≡ s.numthreads + 1
    pub current : s'.curthread ≡ s.curthread
    pub level : s'.curspl ≡ s.curspl
    pub logged : s'.calls ≡ incref_cwd (s.t_cwd cur) s.calls
    pub inherited : s'.t_cwd newguy ≡ s.t_cwd cur
    pub others_cwd : (t : ℕ) → newguy ≢ t → s'.t_cwd t ≡ s.t_cwd t
    pub runnable : Holds s'.runqueue (rs ++ newguy ∷ [])
    pub asleep : contents s'.sleepers ≡ contents s.sleepers
    pub dead : contents s'.zombies ≡ contents s.zombies
    pub sleep_room : s'.numthreads ≤ s'.sleepers.max_
    pub dead_room : s'.numthreads ≤ s'.zombies.max_

  abbrev pub Forked : Threads → ℕ → ℕ → List ℕ → Run (Code × Threads) → Type 0
  Forked s cur newguy rs run =
      ((k : ℕ) × (s' : Threads) × (kmalloc k ≡ false)
        × (run ≡ ok (some enomem, s'))
        × Unforked s s' cur rs)
      ⊎ ((s' : Threads) × (run ≡ ok (none, s')) × Child s s' cur newguy rs)

  -- The state at the first preallocation.
  abbrev started : ℕ → ℕ → Threads → Threads
  started cur newguy s =
      record (inherit_cwd cur newguy (record s {
        t_sleepaddr = update s.t_sleepaddr newguy 0;
        t_vmspace = update s.t_vmspace newguy none;
        stack_ok = update s.stack_ok newguy true;
      })) { curspl = 1 }

  -- The state after the jump to `fail` with these three lists.
  abbrev failed_with : ℕ → ℕ → Threads → Array ℕ → Array ℕ → Queue ℕ → Threads
  failed_with cur newguy s a z q =
      (fork_fail s.curspl newguy enomem
        (record (started cur newguy s) { sleepers = a; zombies = z; runqueue = q })).1
