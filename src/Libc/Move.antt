-- ===== src/Libc/Move.antt =====
-- os161/lib/libc/memcpy.c and memmove.c: copies between regions that overlap.
use azurespider.Prelude.{
  ℕ, zero, suc, ◌+◌, ◌-◌, ◌*◌, ◌/◌, ◌≤◌, ◌≡◌, refl, ap, ◌∙◌, inl, inr, Bool, true, false,
  Bool-cases, ◌&&◌, ltb, leb, if◌then◌else◌, dec_lt, arith,
}
use azurespider.Libc.{assign, copy_up, copy_down, by_words, memcpy, memmove}

-- The memory after a region is copied as if all of it were read before any of it is written.
abbrev pub copied : ℕ → ℕ → ℕ → (ℕ → ℕ) → ℕ → ℕ
copied dst src len mem x = if leb dst x && ltb x (dst + len) then mem (src + (x - dst)) else mem x

-- Byte x of the region from offset a on, of t bytes.
abbrev in_part : ℕ → ℕ → ℕ → ℕ → Bool
in_part dst a t x = leb (dst + a) x && ltb x (dst + a + t)

part_low : (dst a t x : ℕ) → in_part dst a t x ≡ true → dst + a ≤ x
part_low dst a t x h = ground (arith, h)

-- The part [a, a + w) first, and the rest behind it: reading does not meet what is written.
up_step :
    (a w t dst src x : ℕ) (mem : ℕ → ℕ)
    → dst ≤ src
    → (if in_part dst (a + w) t x
        then assign w (dst + a) (src + a) mem (src + (x - dst))
        else assign w (dst + a) (src + a) mem x)
      ≡ (if in_part dst a (w + t) x then mem (src + (x - dst)) else mem x)
up_step a w t dst src x mem far = elim (Bool-cases (in_part dst (a + w) t x)) [
  | inl later ↦
      let all : in_part dst a (w + t) x ≡ true = ground (arith, later) in
      let clear : (leb (dst + a) (src + (x - dst)) && ltb (src + (x - dst)) (dst + a + w)) ≡ false =
        ground (arith, later, far) in
      rw (later, all, clear) refl
  | inr not_later ↦ elim (Bool-cases (in_part dst a w x)) [
    | inl now ↦
        let all : in_part dst a (w + t) x ≡ true = ground (arith, now) in
        let at : src + a + (x - (dst + a)) ≡ src + (x - dst) =
          omega (arith, part_low dst a w x now) in
        rw (not_later, all, now) (ap mem at)
    | inr never ↦
        let all : in_part dst a (w + t) x ≡ false = ground (arith, not_later, never) in
        rw (not_later, all, never) refl
  ]
]

suc_mul : (i w : ℕ) → (i + 1) * w ≡ i * w + w
suc_mul i w = ground arith

mul_suc : (i w : ℕ) → w + i * w ≡ suc i * w
mul_suc i w = ground arith

-- Forward from index i on.
up_lem :
    (rounds i w dst src x : ℕ) (mem : ℕ → ℕ)
    → dst ≤ src
    → copy_up rounds i w dst src mem x
      ≡ (if in_part dst (i * w) (rounds * w) x then mem (src + (x - dst)) else mem x)
unfolding copy_up
up_lem zero i w dst src x mem far = ground arith
up_lem (suc rounds) i w dst src x mem far =
    up_lem rounds (i + 1) w dst src x (assign w (dst + i * w) (src + i * w) mem) far
    ∙ ap
        (λ a.
          if in_part dst a (rounds * w) x
          then assign w (dst + i * w) (src + i * w) mem (src + (x - dst))
          else assign w (dst + i * w) (src + i * w) mem x)
        (suc_mul i w)
    ∙ up_step (i * w) w (rounds * w) dst src x mem far
    ∙ ap (λ t. if in_part dst (i * w) t x then mem (src + (x - dst)) else mem x) (mul_suc rounds w)

-- The part [a, a + w) first, and the rest before it.
down_step :
    (a w dst src x : ℕ) (mem : ℕ → ℕ)
    → src ≤ dst
    → (if in_part dst 0 a x
        then assign w (dst + a) (src + a) mem (src + (x - dst))
        else assign w (dst + a) (src + a) mem x)
      ≡ (if in_part dst 0 (w + a) x then mem (src + (x - dst)) else mem x)
down_step a w dst src x mem near = elim (Bool-cases (in_part dst 0 a x)) [
  | inl later ↦
      let all : in_part dst 0 (w + a) x ≡ true = ground (arith, later) in
      let clear : (leb (dst + a) (src + (x - dst)) && ltb (src + (x - dst)) (dst + a + w)) ≡ false =
        ground (arith, later, near) in
      rw (later, all, clear) refl
  | inr not_later ↦ elim (Bool-cases (in_part dst a w x)) [
    | inl now ↦
        let all : in_part dst 0 (w + a) x ≡ true = ground (arith, now) in
        let at : src + a + (x - (dst + a)) ≡ src + (x - dst) =
          omega (arith, part_low dst a w x now) in
        rw (not_later, all, now) (ap mem at)
    | inr never ↦
        let all : in_part dst 0 (w + a) x ≡ false = ground (arith, not_later, never) in
        rw (not_later, all, never) refl
  ]
]

down_lem :
    (i w dst src x : ℕ) (mem : ℕ → ℕ)
    → src ≤ dst
    → copy_down i w dst src mem x
      ≡ (if in_part dst 0 (i * w) x then mem (src + (x - dst)) else mem x)
unfolding copy_down
down_lem zero w dst src x mem near = ground arith
down_lem (suc i) w dst src x mem near =
    down_lem i w dst src x (assign w (dst + i * w) (src + i * w) mem) near
    ∙ down_step (i * w) w dst src x mem near
    ∙ ap (λ t. if in_part dst 0 t x then mem (src + (x - dst)) else mem x) (mul_suc i w)

-- A part from offset 0 on, of n bytes.
whole_part :
    (dst src a t n x : ℕ) (mem : ℕ → ℕ)
    → a ≡ 0
    → t ≡ n
    → (if in_part dst a t x then mem (src + (x - dst)) else mem x) ≡ copied dst src n mem x
whole_part dst src a t n x mem za tn =
    ap (λ c. if in_part dst c t x then mem (src + (x - dst)) else mem x) za
    ∙ ap (λ c. if in_part dst 0 c x then mem (src + (x - dst)) else mem x) tn
    ∙ ap (λ c. if leb c x && ltb x (c + n) then mem (src + (x - dst)) else mem x) {x = dst + 0}
        {y = dst} (omega arith)

all_words : (dst src len : ℕ) → by_words dst src len ≡ true → len / 4 * 4 ≡ len
all_words dst src len h = ground (arith, h)

-- memcpy copies a region as if all of it were read before any of it is written, if the region does not
-- lie above its copy: also when the two overlap, and whether or not it copies by words.
pub memcpy_lem :
    (dst src len x : ℕ) (mem : ℕ → ℕ)
    → dst ≤ src
    → memcpy dst src len mem x ≡ copied dst src len mem x
unfolding memcpy
memcpy_lem dst src len x mem le = elim (Bool-cases (by_words dst src len)) [
  | inl words ↦ rw words (
      up_lem (len / 4) 0 4 dst src x mem le
      ∙ whole_part dst src (0 * 4) (len / 4 * 4) len x mem (omega arith)
          (all_words dst src len words))
  | inr bytes ↦ rw bytes (
      up_lem len 0 1 dst src x mem le
      ∙ whole_part dst src (0 * 1) (len * 1) len x mem (omega arith) (omega arith))
]

-- memmove copies a region as if all of it were read before any of it is written, wherever the two
-- regions lie, and changes no other byte.
pub memmove_lem :
    (dst src len x : ℕ) (mem : ℕ → ℕ) → memmove dst src len mem x ≡ copied dst src len mem x
unfolding memmove
memmove_lem dst src len x mem = elim (dec_lt dst src) [
  | yes above ↦
      let up : ltb dst src ≡ true = ground (arith, above) in
      rw up (memcpy_lem dst src len x mem (omega (arith, above)))
  | no below ↦
      let down : ltb dst src ≡ false = ground (arith, below) in
      let near : src ≤ dst = omega (arith, below) in
      elim (Bool-cases (by_words dst src len)) [
        | inl words ↦
            rw (down, words)
              (down_lem (len / 4) 4 dst src x mem near
                ∙ whole_part dst src 0 (len / 4 * 4) len x mem refl (all_words dst src len words))
        | inr bytes ↦
            rw (down, bytes)
              (down_lem len 1 dst src x mem near
                ∙ whole_part dst src 0 (len * 1) len x mem refl (omega arith))
      ]
]
