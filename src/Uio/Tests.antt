-- ===== src/Uio/Tests.antt =====
-- os161/kern/userprog/uio.c and os161/kern/lib/copyinout.c: their theorems at concrete regions.
use azurespider.Prelude.{
  ℕ, suc, ◌+◌, ◌≤◌, ◌<◌, ◌≡◌, ◌≢◌, refl, Bool, not, ◌&&◌, [], ◌∷◌, ltb, leb, ◌==◌, if◌then◌else◌,
  min, replicate, arith, ok, none, some,
}
use azurespider.Errno.{Errno, efault, enametoolong, err, got}
use azurespider.Uio.Span.{span}
use azurespider.Uio.{
  Uio, uio_read, uio_write, uio_userspace, uiomove, uiomove_loop, move_on, transfer, amount,
}
use azurespider.Uio.Copy.{
  UserMemory, copied, usertop, copycheck, copy, copy_lem, copystr, copystr_lem,
}

-- Page 0 faults.
abbrev page_zero : ℕ → ℕ → Bool
page_zero base size = ltb base 4096

-- An empty region of user memory is refused.
copy_empty : copy page_zero 8192 0 ≡ some efault
unfolding copy copycheck
copy_empty = refl

copy_lem_example : copy page_zero 8192 100 ≡ (
    if ltb 0 100 && leb (8192 + 100) usertop && not (page_zero 8192 100) then none else some efault)
copy_lem_example = copy_lem page_zero 8192 100 (omega arith) (omega arith)

-- The string "AA".
abbrev word : ℕ → ℕ
word j = if j == 2 then 0 else 65

word_ends : (j : ℕ) → j < 2 → word j ≢ 0
word_ends j lt = λ e. ground (arith, lt, e)

copystr_lem_example :
    (2 < min 8 5 → copystr word 8 5 ≡ (span word 0 (suc 2), got (suc 2)))
    × (min 8 5 ≤ 2
        → copystr word 8 5
          ≡ (span word 0 (min 8 5), err (if ltb 5 8 then efault else enametoolong)))
copystr_lem_example = copystr_lem word 2 8 5 word_ends refl

-- Four bytes of user memory.
abbrev user_bytes : Uio
user_bytes = record {
  iov_base = 8192;
  iov = 1 ∷ 2 ∷ 3 ∷ 4 ∷ [];
  moved = [];
  uio_offset = 0;
  uio_resid = 4;
  uio_segflg = uio_userspace;
  uio_rw = uio_write;
  uio_space = 1;
}

abbrev page_zero_memory : UserMemory
page_zero_memory = record { faults = page_zero; reached = λ base size. 0 }

-- The region faults at its third byte.
abbrev third_byte : UserMemory
third_byte = record { faults = λ base size. ltb 2 size; reached = λ base size. 2 }

half_moved :
    uiomove third_byte 1 (replicate 3 0) 3 user_bytes ≡ ok (some efault, 1 ∷ 2 ∷ 0 ∷ [], user_bytes)
unfolding uiomove uiomove_loop move_on transfer amount copy copied copycheck
half_moved = refl

-- The same memory, to be read into.
abbrev user_space : Uio
user_space = record user_bytes { uio_rw = uio_read }
