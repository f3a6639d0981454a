-- ===== src/Libc/Tests.antt =====
-- os161/lib/libc/memmove.c: a copy between regions that overlap.
use azurespider.Prelude.{ℕ, ◌≡◌, refl}
use azurespider.Libc.{memmove, memcpy, copy_down}
use azurespider.Libc.Move.{copied, memmove_lem}

-- Every address holds itself.
abbrev addresses : ℕ → ℕ
addresses x = x

move_up : memmove 102 100 5 addresses 104 ≡ 102
unfolding memmove memcpy copy_down
move_up = refl

memmove_lem_example : memmove 102 100 5 addresses 104 ≡ copied 102 100 5 addresses 104
memmove_lem_example = memmove_lem 102 100 5 104 addresses
