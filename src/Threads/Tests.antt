-- ===== src/Threads/Tests.antt =====
-- os161/kern/thread/thread.c: the theorems at a system of four threads.
use azurespider.Prelude.{ℕ, ◌≡◌, refl, Bool, true, false, none, some, [], ◌∷◌, arith, ok, replicate}
use azurespider.Array.Bounds.{IsValid}
use azurespider.Queue.Holds.{Holds}
use azurespider.Threads.{Threads, yield_out, sleep_out, wakeup, update}
use azurespider.Threads.Wakeup.{Woken, wakeup_lem}
use azurespider.Threads.Switch.{Inv, yield_lem, sleep_lem, wakeup-Inv}
use azurespider.Threads.Fairness.{yields, yields_lem}

abbrev pub refuses : ℕ → Bool
refuses n = false

-- Thread 1 runs, 2 is runnable, 3 and 4 sleep on 0x80 and 0x90.
abbrev pub asleep_at : ℕ → ℕ
asleep_at t = update (update (λ u. 0) 3 0x80) 4 0x90 t

abbrev pub four : Threads
four = record {
  curthread = some 1;
  sleepers = record { num = 2; max_ = 4; v = some (3 ∷ 4 ∷ 0 ∷ 0 ∷ []) };
  zombies = record { num = 0; max_ = 4; v = some (0 ∷ 0 ∷ 0 ∷ 0 ∷ []) };
  numthreads = 4;
  runqueue = record { size = 8; nextwrite = 1; nextread = 0; data_ = 2 ∷ replicate 7 0 };
  curspl = 1;
  in_interrupt = 0;
  t_sleepaddr = asleep_at;
  t_vmspace = λ t. none;
  t_cwd = λ t. none;
  stack_ok = λ t. true;
  calls = [];
}

four-IsValid : IsValid four.sleepers
four-IsValid = omega arith

four-Holds : Holds four.runqueue (2 ∷ [])
four-Holds = record {
  room = omega arith;
  is_int = omega arith;
  read_in = omega arith;
  fits = omega arith;
  ends = refl;
  items = (refl, tt);
}

pub four-Inv : Inv four 1 (2 ∷ []) (3 ∷ 4 ∷ [])
four-Inv = record {
  running = refl;
  runnable = four-Holds;
  valid = four-IsValid;
  asleep = refl;
  count = refl;
  sleep_room = omega arith;
  run_room = omega arith;
  stacks = λ t. refl;
}

wakeup_lem_example : Woken refuses 0 0x80 four [] (2 ∷ []) (3 ∷ 4 ∷ []) (wakeup refuses 0 0x80 four)
wakeup_lem_example =
    wakeup_lem refuses 0 0x80 four (2 ∷ []) (omega arith) four-IsValid four-Holds (omega arith)

wakeup-Inv_example :
    (s : Threads) × (wakeup refuses 0 0x80 four ≡ ok s)
    × Inv s 1 (2 ∷ 3 ∷ []) (4 ∷ [])
    × (s.t_sleepaddr ≡ asleep_at)
wakeup-Inv_example = wakeup-Inv refuses 0 four 1 0x80 (2 ∷ []) (3 ∷ 4 ∷ []) (omega arith) four-Inv

yield_lem_example :
    (s : Threads) × (yield_out refuses 0 [] four ≡ ok s)
    × Inv s 2 (1 ∷ []) (3 ∷ 4 ∷ [])
    × (s.t_sleepaddr ≡ asleep_at)
yield_lem_example = yield_lem refuses 0 [] four 1 2 (2 ∷ []) (1 ∷ []) (3 ∷ 4 ∷ []) four-Inv refl

sleep_lem_example :
    (s : Threads) × (sleep_out refuses 0 0x80 [] four ≡ ok s)
    × Inv s 2 [] (3 ∷ 4 ∷ 1 ∷ [])
    × (s.t_sleepaddr ≡ update asleep_at 1 0x80)
sleep_lem_example = sleep_lem refuses 0 [] four 1 0x80 2 [] (3 ∷ 4 ∷ []) (omega arith) refl four-Inv

yields_lem_example :
    (s : Threads) × (yields refuses 0 [] 1 four ≡ ok s) × Inv s 2 (1 ∷ []) (3 ∷ 4 ∷ [])
yields_lem_example =
    yields_lem refuses 0 [] (1 ∷ []) [] 2 four 1 (2 ∷ []) (3 ∷ 4 ∷ []) four-Inv refl

-- Two threads and a run queue of two cells.
abbrev crowded : Threads
crowded = record four {
  runqueue = record { size = 2; nextwrite = 1; nextread = 0; data_ = 2 ∷ 0 ∷ [] };
}

crowded-Holds : Holds crowded.runqueue (2 ∷ [])
crowded-Holds = record {
  room = omega arith;
  is_int = omega arith;
  read_in = omega arith;
  fits = omega arith;
  ends = refl;
  items = (refl, tt);
}

-- The same system with the directory 9 of thread 1, and memory for all that is asked for.
abbrev grants : ℕ → Bool
grants n = true

abbrev rooted : Threads
rooted = record four { t_cwd = update (λ t. none) 1 (some 9) }
