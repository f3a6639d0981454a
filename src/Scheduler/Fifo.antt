-- ===== src/Scheduler/Fifo.antt =====
-- os161/kern/thread/scheduler.c: the run queue is first in, first out.
use azurespider.Prelude.{
  none, ◌⊎◌, inr, inl, some, ◌^◌, false, ℕ, zero, suc, ◌≤◌, ◌<◌, ◌≡◌, refl, Bool, List, [], ◌∷◌,
  ◌++◌, arith, length, Run, ok,
}
use azurespider.Errno.{enomem}
use azurespider.Queue.{Queue}
use azurespider.Queue.Holds.{Holds}
use azurespider.Queue.Grow.{Added}
use azurespider.Queue.Refine.{
  preallocate-Grown, addtail_lem, addtail-room, is_empty_iff, remhead_lem, destroy_lem,
}
use azurespider.Scheduler.{preallocate, make_runnable, killall_loop, killall, shutdown, schedule}

-- scheduler_preallocate keeps the run queue, and makes its ring large enough unless kmalloc refuses.
pub preallocate-room :
    (kmalloc : ℕ → Bool) (junk curspl : ℕ) (q : Queue ℕ) (xs : List ℕ) (n : ℕ)
    → 0 < curspl
    → Holds q xs
    → n ≤ 2 ^ 29
    → ((k : ℕ) × (kmalloc k ≡ false) × (preallocate kmalloc junk curspl q n ≡ ok (some enomem, q)))
      ⊎ ((q' : Queue ℕ) × (preallocate kmalloc junk curspl q n ≡ ok (none, q'))
          × Holds q' xs
          × (n ≤ q'.size))
unfolding preallocate
preallocate-room kmalloc junk curspl q xs n spl h small =
    elim (preallocate-Grown kmalloc junk q xs n h small) [
      | inl (enough, e) ↦ inr (q, ground (arith, spl, e), h, enough)
      | inr (less, inl (k, refused, e)) ↦ inl (k, refused, ground (arith, spl, e))
      | inr (less, inr (q', e, h', enough, bound, grant)) ↦
          inr (q', ground (arith, spl, e), h', enough)
    ]

-- make_runnable with a free cell puts the thread at the end, and needs no memory.
pub make_runnable-room :
    (kmalloc : ℕ → Bool) (junk curspl : ℕ) (q : Queue ℕ) (rs : List ℕ) (t : ℕ)
    → 0 < curspl
    → Holds q rs
    → suc (length rs) < q.size
    → Added q (rs ++ t ∷ []) (make_runnable kmalloc junk curspl q t)
unfolding make_runnable
make_runnable-room kmalloc junk curspl q rs t spl h room =
    let (q', e, h', same) = addtail-room kmalloc junk q rs t h room in
    (q', ground (arith, e), h', same)

killall_loop_lem :
    (fuel : ℕ) (q : Queue ℕ) (ts : List ℕ)
    → length ts ≤ fuel
    → Holds q ts
    → (q' : Queue ℕ) × (killall_loop fuel q ≡ ok (ts, q')) × Holds q' []
unfolding killall_loop
killall_loop_lem zero q [] enough h = (q, ground (arith, is_empty_iff q [] h), h)
killall_loop_lem zero q (t ∷ ts) enough h = absurd (omega arith)
killall_loop_lem (suc fuel) q [] enough h = (q, ground (arith, is_empty_iff q [] h), h)
killall_loop_lem (suc fuel) q (t ∷ ts) enough h =
    let (q1, e1, h1, s1) = remhead_lem q t ts h in
    let (q2, e2, h2) = killall_loop_lem fuel q1 ts (omega arith) h1 in
    (q2, ground (arith, e1, e2, is_empty_iff q (t ∷ ts) h), h2)

-- scheduler_killall drops every thread of the run queue, in order, and stops.
pub killall_lem :
    (curspl : ℕ) (q : Queue ℕ) (ts : List ℕ)
    → 0 < curspl
    → Holds q ts
    → (q' : Queue ℕ) × (killall curspl q ≡ ok (ts, q')) × Holds q' []
unfolding killall
killall_lem curspl q ts spl h =
    let (q', e, h') = killall_loop_lem q.size q ts (omega (arith, h.fits)) h in
    (q', ground (arith, e), h')

-- scheduler_shutdown never trips the assertion of q_destroy.
pub shutdown_lem :
    (curspl : ℕ) (q : Queue ℕ) (ts : List ℕ) → 0 < curspl → Holds q ts → shutdown curspl q ≡ ok tt
unfolding shutdown
shutdown_lem curspl q ts spl h =
    let (q', e, h') = killall_lem curspl q ts spl h in
    ground (arith, e, (destroy_lem q' [] h').1 refl)

module _ {S : Type 0} (runqueue : S → Queue ℕ) (with_runqueue : S → Queue ℕ → S) where
  -- scheduler() takes the thread that has waited longest, at once if there is one.
  pub schedule_head :
      (curspl : ℕ) (wakes : List (S → Run S)) (s : S) (t : ℕ) (ts : List ℕ)
      → 0 < curspl
      → Holds (runqueue s) (t ∷ ts)
      → (q : Queue ℕ) × (schedule runqueue with_runqueue curspl wakes s ≡ ok (t, with_runqueue s q))
        × Holds q ts
        × (q.size ≡ (runqueue s).size)
  unfolding schedule
  schedule_head curspl [] s t ts spl h =
      let (q, e, h', same) = remhead_lem (runqueue s) t ts h in
      (q, ground (arith, e, is_empty_iff (runqueue s) (t ∷ ts) h), h', same)
  schedule_head curspl (w ∷ wakes) s t ts spl h =
      let (q, e, h', same) = remhead_lem (runqueue s) t ts h in
      (q, ground (arith, e, is_empty_iff (runqueue s) (t ∷ ts) h), h', same)

-- make_runnable with no free cell returns ENOMEM where kmalloc refuses every request.
pub make_runnable-refused :
    (kmalloc : ℕ → Bool) (junk curspl : ℕ) (q : Queue ℕ) (rs : List ℕ) (t : ℕ)
    → ((n : ℕ) → kmalloc n ≡ false)
    → 0 < curspl
    → Holds q rs
    → suc (length rs) ≡ q.size
    → q.size < 2 ^ 29
    → make_runnable kmalloc junk curspl q t ≡ ok (some enomem, q)
unfolding make_runnable
make_runnable-refused kmalloc junk curspl q rs t refused spl h full small =
    elim (addtail_lem kmalloc junk q rs t h small) [
      | inl (room, r) ↦ absurd (omega arith)
      | inr (e, inl (n, no_memory, r)) ↦ ground (arith, r)
      | inr (e, inr (q', r, h', lo, hi, (n, granted))) ↦ ground (arith, refused n, granted)
    ]
