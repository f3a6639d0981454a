-- ===== src/Sfs/WriteBytes.antt =====
-- os161/kern/fs/sfs/sfs_vnode.c: the bytes of a file before and after a transfer writes some of them.
use azurespider.Prelude.{
  ℕ, ◌+◌, ◌-◌, ◌/◌, ◌%◌, ◌≤◌, ◌<◌, ◌≡◌, ◌≢◌, refl, sym, ap, subst, ◌∙◌, ◌⊎◌, inl, inr, Bool, true,
  false, ◌&&◌, Bool-cases, List, [], ltb, leb, ◌==◌, if◌then◌else◌, get_or, ℕ_discrete, arith, Run,
  ok, none, some, length,
}
use azurespider.Errno.{Errno, Code}
use azurespider.Uio.{Uio, uio_write}
use azurespider.Uio.Move.{Passed, then-Passed}
use azurespider.Sfs.{Sfs, SfsVnode}
use azurespider.Sfs.Blocks.{IsSized, counted}
use azurespider.Sfs.Mapping.{block_of, Mapped, Mapped-change}
use azurespider.Sfs.Look.{byte_at}
use azurespider.Sfs.Bytes.{Whole, put, byte_put, get_or-drop}

-- Whether byte j is one of the n that a write at `off` writes, and the bytes of the file after it.
abbrev pub hit : ℕ → ℕ → ℕ → Bool
hit off n j = leb off j && ltb j (off + n)

abbrev pub after : Uio → ℕ → (ℕ → ℕ) → ℕ → ℕ
after u n f j = if hit u.uio_offset n j then get_or u.iov (j - u.uio_offset) 0 else f j

-- A transfer writes n bytes to the file, or fails; a failed one writes to no other byte.
abbrev pub Writes : SfsVnode → Sfs → Uio → ℕ → Run (Code × SfsVnode × Uio × Sfs) → Type 0
Writes sv s u n run =
    ((e : Errno) × (sv' : SfsVnode) × (u' : Uio) × (s' : Sfs) × (run ≡ ok (some e, sv', u', s'))
      × Whole s sv s' sv'
      × (u'.uio_rw ≡ uio_write)
      × ((j : ℕ) → j < 73216 → hit u.uio_offset n j ≡ false → byte_at s' sv' j ≡ byte_at s sv j))
    ⊎ ((sv' : SfsVnode) × (u' : Uio) × (s' : Sfs) × (run ≡ ok (none, sv', u', s'))
        × Whole s sv s' sv'
        × Passed u u' n []
        × ((j : ℕ) → j < 73216 → byte_at s' sv' j ≡ after u n (byte_at s sv) j))

pub then-Whole : {s t r : Sfs} {a b c : SfsVnode} → Whole s a t b → Whole t b r c → Whole s a r c
then-Whole x y = record {
  mapped = y.mapped;
  sized = y.sized;
  same_nblocks = y.same_nblocks ∙ x.same_nblocks;
  same_size = y.same_size ∙ x.same_size;
}

pub after-after :
    (u u1 : Uio) (n k j : ℕ) (f g : ℕ → ℕ)
    → Passed u u1 n []
    → g j ≡ after u n f j
    → after u1 k g j ≡ after u (n + k) f j
after-after u u1 n k j f g p e = elim (Bool-cases (hit u1.uio_offset k j)) [
  | inl second ↦
      let here : u.uio_offset + n ≤ j = ground (arith, second, p.offset) in
      let whole : hit u.uio_offset (n + k) j ≡ true = ground (arith, second, p.offset) in
      let at : n + (j - u1.uio_offset) ≡ j - u.uio_offset = omega (arith, p.offset, here) in
      rw (second, whole)
        (ap (λ xs. get_or xs (j - u1.uio_offset) 0) p.iov
          ∙ get_or-drop n u.iov (j - u1.uio_offset)
          ∙ ap (λ i. get_or u.iov i 0) at)
  | inr not_second ↦ elim (Bool-cases (hit u.uio_offset n j)) [
    | inl first ↦
        let whole : hit u.uio_offset (n + k) j ≡ true = ground (arith, first) in
        rw (not_second, whole) (e ∙ rw first refl)
    | inr neither ↦
        let whole : hit u.uio_offset (n + k) j ≡ false =
          ground (arith, not_second, neither, p.offset) in
        rw (not_second, whole) (e ∙ rw neither refl)
  ]
]

pub then-Writes :
    (sv sv1 : SfsVnode) (s s1 : Sfs) (u u1 : Uio) (n k t : ℕ)
    (run run1 : Run (Code × SfsVnode × Uio × Sfs))
    → Whole s sv s1 sv1
    → Passed u u1 n []
    → ((j : ℕ) → j < 73216 → byte_at s1 sv1 j ≡ after u n (byte_at s sv) j)
    → run ≡ run1
    → n + k ≡ t
    → Writes sv1 s1 u1 k run1
    → Writes sv s u t run
then-Writes sv sv1 s s1 u u1 n k t run run1 w p bytes e sum (inl (x, sv', u', s', r, w1, d, out)) =
    inl (
      x,
      sv',
      u',
      s',
      e ∙ r,
      then-Whole w w1,
      d,
      λ j lj miss.
          let first : hit u.uio_offset n j ≡ false = ground (arith, miss, sum) in
          let second : hit u1.uio_offset k j ≡ false = ground (arith, miss, sum, p.offset) in
          out j lj second ∙ bytes j lj ∙ rw first refl,
    )
then-Writes sv sv1 s s1 u u1 n k t run run1 w p bytes e sum (inr (sv', u', s', r, w1, q, now)) =
    inr (
      sv',
      u',
      s',
      e ∙ r,
      then-Whole w w1,
      subst (λ m. Passed u u' m []) sum (then-Passed p q),
      λ j lj.
          now j lj
          ∙ after-after u u1 n k j (byte_at s sv) (byte_at s1 sv1) p (bytes j lj)
          ∙ ap (λ m. after u m (byte_at s sv) j) sum,
    )

-- Nothing is written yet.
pub nothing_after : (u : Uio) (f : ℕ → ℕ) (j : ℕ) → after u 0 f j ≡ f j
nothing_after u f j = ground arith

pub counted-Whole :
    (s : Sfs) (sv : SfsVnode) (c : ℕ)
    → Mapped s sv
    → IsSized s
    → Whole s sv (record s { ios = c }) sv
counted-Whole s sv c m sized = record {
  mapped = Mapped-change s (record s { ios = c }) sv m (counted s c m.fs);
  sized = sized;
  same_nblocks = refl;
  same_size = refl;
}

pub eq_false : (a b : ℕ) → a ≢ b → (a == b) ≡ false
eq_false a b ne = ground (arith, ne)

pub block_hit : (off i : ℕ) → off % 512 ≡ 0 → i < 512 → hit (off % 512) 512 i ≡ true
block_hit off i aligned lt = ground (arith, aligned, lt)

pub hit_less : (off m n j : ℕ) → m ≤ n → hit off n j ≡ false → hit off m j ≡ false
hit_less off m n j le h = ground (arith, le, h)

pub leb_le : (off n j : ℕ) → hit off n j ≡ true → off ≤ j
leb_le off n j h = ground (arith, h)

-- The bytes after n of them, inside block k, are written.
pub put_bytes :
    (s : Sfs) (sv : SfsVnode) (u : Uio) (k n c : ℕ) (m : Mapped s sv) (sized : IsSized s)
    (inside : k < 143) (there : block_of s sv k ≢ 0) (bytes : List ℕ) (len : length bytes ≡ 512)
    → u.uio_offset / 512 ≡ k
    → u.uio_offset % 512 + n ≤ 512
    → ((i : ℕ)
        → i < 512
        → get_or bytes i 0 ≡ (
            if hit (u.uio_offset % 512) n i
            then get_or u.iov (i - u.uio_offset % 512) 0
            else get_or (s.blocks (block_of s sv k)) i 0))
    → (j : ℕ) → j < 73216
    → byte_at (put s sv k c bytes m sized inside there len) sv j ≡ after u n (byte_at s sv) j
put_bytes s sv u k n c m sized inside there bytes len at fits new j lj =
    byte_put s sv k c bytes m sized inside there len j lj ∙ elim (ℕ_discrete k (j / 512)) [
      | no other ↦
          let miss : hit u.uio_offset n j ≡ false = ground (arith, other, at, fits) in
          rw miss (ground (arith, other))
      | yes here ↦
          let o : ℕ = j % 512 in
          let same : hit (u.uio_offset % 512) n o ≡ hit u.uio_offset n j =
            ground (arith, here, at, fits) in
          let old : byte_at s sv j ≡ get_or (s.blocks (block_of s sv k)) o 0 =
            ap (λ i. if block_of s sv i == 0 then 0 else get_or (s.blocks (block_of s sv i)) o 0)
              (sym here)
            ∙ ground (arith, there) in
          let chosen : (k == j / 512) ≡ true = ground (arith, here) in
          ap (λ b. if b then get_or bytes o 0 else byte_at s sv j) chosen
          ∙ new o (omega arith)
          ∙ elim (Bool-cases (hit u.uio_offset n j)) [
            | inl inside_it ↦
                let shift : o - u.uio_offset % 512 ≡ j - u.uio_offset =
                  omega (arith, here, at, leb_le u.uio_offset n j inside_it) in
                rw (same ∙ inside_it, inside_it) (ap (λ i. get_or u.iov i 0) shift)
            | inr outside ↦ rw (same ∙ outside, outside) (sym old)
          ]
    ]
