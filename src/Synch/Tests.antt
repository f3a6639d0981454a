-- ===== src/Synch/Tests.antt =====
-- os161/kern/thread/synch.c: the theorems at a system of four threads, of which thread 3 sleeps on
-- the semaphore or lock at 0x80.
use azurespider.Prelude.{true, ◌≡◌, refl, ◌⊎◌, ◌<◌, none, some, [], ◌∷◌, ◌-◌, arith, ok}
use azurespider.Threads.{Threads, update}
use azurespider.Threads.Wakeup.{on}
use azurespider.Threads.Switch.{Inv}
use azurespider.Threads.Tests.{refuses, asleep_at, four, four-Inv}
use azurespider.Synch.{
  lock_create, lock_destroy, lock_do_i_hold, sem_create, Semaphore, Lock, asleep, returned, p, v,
  lock_release, acquire_loop,
}
use azurespider.Synch.Waiting.{p_lem, v_lem}
use azurespider.Synch.Mutex.{created, acquires, Holder, mutual_exclusion, release_by_anyone}

abbrev empty : Semaphore
empty = record { count = 0 }

p_lem_example :
    ((0 < empty.count)
      × (p refuses 0 0x80 [] empty four ≡ ok (returned, record { count = empty.count - 1 }, four)))
    ⊎ ((empty.count ≡ 0)
        × (s : Threads) × (p refuses 0 0x80 [] empty four ≡ ok (asleep, empty, s))
        × Inv s 2 [] (3 ∷ 4 ∷ 1 ∷ [])
        × (s.t_sleepaddr ≡ update asleep_at 1 0x80))
p_lem_example = p_lem refuses 0 0x80 [] empty four 1 2 [] (3 ∷ 4 ∷ []) refl four-Inv

v_lem_example :
    (s : Threads) × (v refuses 0 0x80 empty four ≡ ok (record { count = 1 }, s))
    × Inv s 1 (2 ∷ 3 ∷ []) (4 ∷ [])
    × (on s.t_sleepaddr 0x80 (4 ∷ []) ≡ [])
    × (s.curspl ≡ 1)
v_lem_example = v_lem refuses 0 0x80 empty four 1 (2 ∷ []) (3 ∷ 4 ∷ []) (omega arith) four-Inv

-- Thread 9 holds the lock, and thread 1 releases it.
release_by_anyone_example :
    (s : Threads) × (lock_release refuses 0 0x80 (record { lock_ = 0; owner = some 9 }) four
      ≡ ok (record { lock_ = 1; owner = none }, s))
    × Inv s 1 (2 ∷ 3 ∷ []) (4 ∷ [])
    × (on s.t_sleepaddr 0x80 (4 ∷ []) ≡ [])
release_by_anyone_example =
    release_by_anyone refuses 0 0x80 (record { lock_ = 0; owner = some 9 }) four 1 (2 ∷ [])
      (3 ∷ 4 ∷ []) four-Inv

abbrev fresh : Lock
fresh = record { lock_ = 1; owner = none }

abbrev mine : Lock
mine = record { lock_ = 0; owner = some 1 }

takes : acquire_loop refuses 0 0x80 1 [] fresh four ≡ ok (returned, mine, four)
unfolding acquire_loop
takes = refl

mutual_exclusion_example : Holder refuses 0 0x80 (1 ∷ []) mine
mutual_exclusion_example =
    mutual_exclusion refuses 0 0x80 (1 ∷ []) mine four
      (acquires [] fresh mine four four 1 1 [] (created four) refl takes)

-- Creation, and destruction with a sleeper.
creates : sem_create (λ n. true) true 3 ≡ some (record { count = 3 })
unfolding sem_create
creates = refl

no_memory : lock_create refuses true ≡ none
unfolding lock_create
no_memory = refl

destroys : lock_destroy fresh ≡ ok fresh
unfolding lock_destroy
destroys = refl

holds : lock_do_i_hold mine four ≡ true
unfolding lock_do_i_hold
holds = refl
