-- ===== src/Sfs/Owns.antt =====
-- os161/kern/fs/sfs/sfs_vnode.c: freeing the blocks of a file, one at a time.
use azurespider.Prelude.{
  ℕ, ◌<◌, ◌≡◌, ◌≢◌, refl, sym, subst, ◌∙◌, inl, inr, true, not, ◌&&◌, ◌==◌, if◌then◌else◌, if_ne,
  ℕ_discrete, arith, ok,
}
use azurespider.Bitmap.Bits.{unmark_lem}
use azurespider.Sfs.{Device, Sfs, bfree}
use azurespider.Sfs.Blocks.{in_use, FsValid}

-- A file with the blocks f and the indirect block i has all of them to itself.
pub record Owns (s : Sfs) (f : ℕ → ℕ) (i : ℕ) : Type 0 where
  pub fs : FsValid s
  pub indirect : i ≢ 0 → (i < s.sp_nblocks) × (in_use s i ≡ true)
  pub used : (k : ℕ) → k < 143 → f k ≢ 0 → (f k < s.sp_nblocks) × (in_use s (f k) ≡ true)
  pub apart : (j k : ℕ) → j < 143 → k < 143 → j ≢ k → f j ≡ f k → f j ≡ 0
  pub apart_indirect : (k : ℕ) → k < 143 → f k ≡ i → f k ≡ 0

pub Owns-same :
    (s : Sfs) (f g : ℕ → ℕ) (i : ℕ) → Owns s f i → ((k : ℕ) → k < 143 → g k ≡ f k) → Owns s g i
Owns-same s f g i o e = record {
  fs = o.fs;
  indirect = o.indirect;
  used = λ k lk ne.
      let (lt, used) = o.used k lk λ z. ne (e k lk ∙ z) in
      (omega (arith, e k lk, lt), subst (λ b. in_use s b ≡ true) (sym (e k lk)) used);
  apart = λ j k lj lk ne h. e j lj ∙ o.apart j k lj lk ne (sym (e j lj) ∙ h ∙ e k lk);
  apart_indirect = λ k lk h. e k lk ∙ o.apart_indirect k lk (sym (e k lk) ∙ h);
}

-- s' is s with the block b free.
pub record Freed (s s' : Sfs) (b : ℕ) : Type 0 where
  pub fs : FsValid s'
  pub same_nblocks : s'.sp_nblocks ≡ s.sp_nblocks
  pub same_blocks : s'.blocks ≡ s.blocks
  pub bits : (j : ℕ) → in_use s' j ≡ (not (b == j) && in_use s j)

module _ (dev : Device) where
  -- sfs_bfree frees a block in use.
  pub bfree_lem :
      (b : ℕ) (s : Sfs)
      → FsValid s
      → b < s.sp_nblocks
      → 0 < b
      → in_use s b ≡ true
      → (s' : Sfs) × (bfree dev b s ≡ ok s') × Freed s s' b
  unfolding bfree
  bfree_lem b s v lt pos used =
      elim (unmark_lem s.sfs_freemap b v.map (omega (arith, lt, v.covers))) [
        | inr (clear, r) ↦ absurd (ground (arith, clear, used))
        | inl (map, was, r, valid, n, bits) ↦ (
          record s { sfs_freemap = map; sfs_freemapdirty = true },
          ground (arith, r),
          record {
            fs = record {
              map = valid;
              covers = omega (arith, v.covers, n);
              beyond = λ j past within.
                  let old = v.beyond j past (omega (arith, within, n)) in
                  ground (arith, bits j, old, past, lt);
              super_used = ground (arith, bits 0, v.super_used, pos);
            };
            same_nblocks = refl;
            same_blocks = refl;
            bits = bits;
          },
        )
      ]

-- A file gives one of its blocks up.
pub Owns-Freed :
    (s s' : Sfs) (f : ℕ → ℕ) (i k : ℕ)
    → Owns s f i
    → Freed s s' (f k)
    → k < 143
    → f k ≢ 0
    → Owns s' (λ j. if k == j then 0 else f j) i
Owns-Freed s s' f i k o d lk ne = record {
  fs = d.fs;
  indirect = λ there.
      let (lt, used) = o.indirect there in
      let other : f k ≢ i = λ e. ne (o.apart_indirect k lk e) in
      (omega (arith, lt, d.same_nblocks), ground (arith, d.bits i, used, other));
  used = λ j lj live. elim (ℕ_discrete k j) [
    | yes e ↦ absurd (live (ground (arith, e)))
    | no diff ↦
        let same = if_ne k j 0 (f j) diff in
        let (lt, used) = o.used j lj λ z. live (same ∙ z) in
        let other : f k ≢ f j = λ e. ne (o.apart k j lk lj diff e) in
        (
          omega (arith, same, lt, d.same_nblocks),
          subst (λ b. in_use s' b ≡ true) (sym same) (ground (arith, d.bits (f j), used, other)),
        )
  ];
  apart = λ j l lj ll diff e. elim (ℕ_discrete k j) [
    | yes ej ↦ ground (arith, ej)
    | no nj ↦ elim (ℕ_discrete k l) [
      | yes el ↦ e ∙ ground (arith, el)
      | no nl ↦
          let sj = if_ne k j 0 (f j) nj in
          let sl = if_ne k l 0 (f l) nl in sj ∙ o.apart j l lj ll diff (sym sj ∙ e ∙ sl)
    ]
  ];
  apart_indirect = λ j lj e. elim (ℕ_discrete k j) [
    | yes ej ↦ ground (arith, ej)
    | no nj ↦ let sj = if_ne k j 0 (f j) nj in sj ∙ o.apart_indirect j lj (sym sj ∙ e)
  ];
}
