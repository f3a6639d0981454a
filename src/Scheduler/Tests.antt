-- ===== src/Scheduler/Tests.antt =====
-- os161/kern/thread/scheduler.c: the theorems at a run queue of two threads.
use azurespider.Prelude.{ℕ, ◌≡◌, refl, [], ◌∷◌, arith, ok}
use azurespider.Queue.{Queue}
use azurespider.Queue.Holds.{Holds}
use azurespider.Scheduler.{killall, schedule}
use azurespider.Scheduler.Fifo.{killall_lem, schedule_head}

abbrev two : Queue ℕ
two = record { size = 4; nextwrite = 1; nextread = 3; data_ = 0x200 ∷ 0 ∷ 0 ∷ 0x100 ∷ [] }

two-Holds : Holds two (0x100 ∷ 0x200 ∷ [])
two-Holds = record {
  room = omega arith;
  is_int = omega arith;
  read_in = omega arith;
  fits = omega arith;
  ends = refl;
  items = (refl, (refl, tt));
}

killall_lem_example : (q : Queue ℕ) × (killall 1 two ≡ ok (0x100 ∷ 0x200 ∷ [], q)) × Holds q []
killall_lem_example = killall_lem 1 two (0x100 ∷ 0x200 ∷ []) (omega arith) two-Holds

schedule_head_example :
    (q : Queue ℕ) × (schedule (λ (s : Queue ℕ). s) (λ s r. r) 1 [] two ≡ ok (0x100, q))
    × Holds q (0x200 ∷ [])
    × (q.size ≡ 4)
schedule_head_example =
    schedule_head (λ (s : Queue ℕ). s) (λ s r. r) 1 [] two 0x100 (0x200 ∷ []) (omega arith)
      two-Holds
