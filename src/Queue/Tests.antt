-- ===== src/Queue/Tests.antt =====
-- os161/kern/lib/queue.c: runs of the queue, and its theorems at concrete queues.
use azurespider.Prelude.{
  ℕ, ◌≡◌, refl, Bool, true, false, none, some, List, [], ◌∷◌, ◌++◌, arith, ◌<◌, ◌⊎◌, ok,
}
use azurespider.Errno.{enomem}
use azurespider.Queue.{Queue, addtail, addtail_at, remhead, grow, grow_size, copy, put, is_empty}
use azurespider.Queue.Holds.{Holds}
use azurespider.Queue.Grow.{Added, Grown}
use azurespider.Queue.Refine.{addtail_lem, remhead_lem}

abbrev grants : ℕ → Bool
grants n = true

abbrev refuses : ℕ → Bool
refuses n = false

-- Three cells, of which 7 and 8 take the last and the first.
abbrev full : Queue ℕ
full = record { size = 3; nextwrite = 1; nextread = 2; data_ = 8 ∷ 0 ∷ 7 ∷ [] }

abbrev held : List ℕ
held = 7 ∷ 8 ∷ []

full-Holds : Holds full held
full-Holds = record {
  room = omega arith;
  is_int = omega arith;
  read_in = omega arith;
  fits = omega arith;
  ends = refl;
  items = (refl, (refl, tt));
}

addtail_grows :
    addtail grants 0 full 9
    ≡ ok
        (none, record { size = 6; nextwrite = 3; nextread = 0; data_ = 7 ∷ 8 ∷ 9 ∷ 0 ∷ 0 ∷ 0 ∷ [] })
unfolding addtail addtail_at grow grow_size copy put
addtail_grows = refl

addtail_refused : addtail refuses 0 full 9 ≡ ok (some enomem, full)
unfolding addtail addtail_at grow grow_size copy put
addtail_refused = refl

remhead_wraps : remhead full ≡ ok (7, record full { nextread = 0 })
unfolding remhead is_empty
remhead_wraps = refl

addtail_lem_example :
    ((3 < 3) × Added full (held ++ 9 ∷ []) (addtail grants 0 full 9))
    ⊎ ((◌≡◌ {A = ℕ} 3 3) × Grown grants full (held ++ 9 ∷ []) 4 (addtail grants 0 full 9))
addtail_lem_example = addtail_lem grants 0 full held 9 full-Holds (omega arith)

remhead_lem_example : (q : Queue ℕ) × (remhead full ≡ ok (7, q)) × Holds q (8 ∷ []) × (q.size ≡ 3)
remhead_lem_example = remhead_lem full 7 (8 ∷ []) full-Holds
