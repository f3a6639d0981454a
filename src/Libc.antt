-- ===== src/Libc.antt =====
-- os161/lib/libc: memcpy.c and memmove.c, which the kernel shares with user programs. A memory is a
-- function from addresses to bytes; a region does not reach over the top of memory. A long has 4 bytes.
pub mod Move
mod Tests
use azurespider.Prelude.{
  ℕ, zero, suc, ◌+◌, ◌-◌, ◌*◌, ◌/◌, ◌%◌, Bool, ◌&&◌, ltb, leb, ◌==◌, if◌then◌else◌,
}

-- One assignment d[i] = s[i] of an object of w bytes, from address s to address d.
abbrev pub assign : ℕ → ℕ → ℕ → (ℕ → ℕ) → ℕ → ℕ
assign w d s mem x = if leb d x && ltb x (d + w) then mem (s + (x - d)) else mem x

-- The loop of memcpy from index i on, and the loop of memmove, on objects of w bytes.
unfoldable pub copy_up : ℕ → ℕ → ℕ → ℕ → ℕ → (ℕ → ℕ) → ℕ → ℕ
copy_up zero i w dst src mem = mem
copy_up (suc rounds) i w dst src mem =
    copy_up rounds (i + 1) w dst src (assign w (dst + i * w) (src + i * w) mem)

unfoldable pub copy_down : ℕ → ℕ → ℕ → ℕ → (ℕ → ℕ) → ℕ → ℕ
copy_down zero w dst src mem = mem
copy_down (suc i) w dst src mem = copy_down i w dst src (assign w (dst + i * w) (src + i * w) mem)

-- Whether the words of a region can be copied.
abbrev pub by_words : ℕ → ℕ → ℕ → Bool
by_words dst src len = dst % 4 == 0 && src % 4 == 0 && len % 4 == 0

-- memcpy
unfoldable pub memcpy : ℕ → ℕ → ℕ → (ℕ → ℕ) → ℕ → ℕ
memcpy dst src len mem =
    if by_words dst src len then copy_up (len / 4) 0 4 dst src mem else copy_up len 0 1 dst src mem

-- memmove
unfoldable pub memmove : ℕ → ℕ → ℕ → (ℕ → ℕ) → ℕ → ℕ
memmove dst src len mem =
    if ltb dst src
    then memcpy dst src len mem
    else if by_words dst src len
    then copy_down (len / 4) 4 dst src mem
    else copy_down len 1 dst src mem
