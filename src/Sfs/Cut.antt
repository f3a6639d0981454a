-- ===== src/Sfs/Cut.antt =====
-- os161/kern/fs/sfs/sfs_vnode.c: what the two loops of sfs_truncate free.
use azurespider.Prelude.{
  ◌∷◌, ℕ, zero, suc, ◌+◌, ◌-◌, ◌≤◌, ◌<◌, ◌≡◌, ◌≢◌, refl, sym, ap, subst, ◌∙◌, inl, inr, Bool, true,
  false, not, ◌&&◌, Bool-cases, List, [], ltb, leb, ◌==◌, if◌then◌else◌, get_or, set, length,
  length-set, ℕ_discrete, arith, Run, ok,
}
use azurespider.Bitmap.Bits.{get_or-set}
use azurespider.Sfs.{Device, Sfs, SfsVnode, bfree}
use azurespider.Sfs.Blocks.{in_use}
use azurespider.Sfs.Owns.{Owns, Owns-same, Freed, bfree_lem, Owns-Freed}
use azurespider.Sfs.Truncate.{with_entry, free_direct}

-- The map of a file with the direct blocks d and the others g.
abbrev pub file : List ℕ → (ℕ → ℕ) → ℕ → ℕ
file d g k = if ltb k 15 then get_or d k 0 else g k

-- The others, from the words of the indirect block.
abbrev pub entries : List ℕ → ℕ → ℕ
entries idbuf k = get_or idbuf (k - 15) 0

-- From s to s' blocks may only become free.
pub record Trimmed (s s' : Sfs) : Type 0 where
  pub same_nblocks : s'.sp_nblocks ≡ s.sp_nblocks
  pub same_blocks : s'.blocks ≡ s.blocks
  pub shrinks : (b : ℕ) → in_use s b ≡ false → in_use s' b ≡ false

pub Trimmed-refl : (s : Sfs) → Trimmed s s
Trimmed-refl s = record { same_nblocks = refl; same_blocks = refl; shrinks = λ b h. h }

pub then-Trimmed : {s t u : Sfs} → Trimmed s t → Trimmed t u → Trimmed s u
then-Trimmed a b = record {
  same_nblocks = b.same_nblocks ∙ a.same_nblocks;
  same_blocks = b.same_blocks ∙ a.same_blocks;
  shrinks = λ c h. b.shrinks c (a.shrinks c h);
}

pub Freed-Trimmed : (s s' : Sfs) (b : ℕ) → Freed s s' b → Trimmed s s'
Freed-Trimmed s s' b d = record {
  same_nblocks = d.same_nblocks;
  same_blocks = d.same_blocks;
  shrinks = λ c h. ground (arith, d.bits c, h);
}

pub Freed-free : (s s' : Sfs) (b : ℕ) → Freed s s' b → in_use s' b ≡ false
Freed-free s s' b d = ground (arith, d.bits b)

pub past_end : (d : List ℕ) (j : ℕ) → length d ≤ j → get_or {A = ℕ} d j 0 ≡ 0
past_end [] j h = refl
past_end (x ∷ d) zero h = absurd (omega arith)
past_end (x ∷ d) (suc j) h = past_end d j (omega arith)

module _ (dev : Device) (blocklen : ℕ) where
  -- One block of the file is given up.
  pub discard :
      (s : Sfs) (f f' : ℕ → ℕ) (i k b : ℕ)
      → Owns s f i
      → k < 143
      → f k ≡ b
      → 0 < b
      → ((j : ℕ) → j < 143 → f' j ≡ (if k == j then 0 else f j))
      → (s' : Sfs) × (bfree dev b s ≡ ok s') × Freed s s' b × Owns s' f' i
  discard s f f' i k b o lk e pos same =
      let (small, used) = o.used k lk λ z. absurd (omega (arith, z, e, pos)) in
      let (s', r, d) =
        bfree_lem dev b s o.fs (omega (arith, small, e)) pos
          (subst (λ c. in_use s c ≡ true) e used) in
      (
        s',
        r,
        d,
        Owns-same s' (λ j. if k == j then 0 else f j) f' i
            (Owns-Freed s s' f i k o (subst (Freed s s') (sym e) d) lk
              λ z. absurd (omega (arith, z, e, pos)))
            same,
      )

  -- The first loop frees the direct blocks from i on that are past the new end, and no others.
  abbrev pub CutDirect : ℕ → SfsVnode → Sfs → (ℕ → ℕ) → Run (SfsVnode × Sfs) → Type 0
  CutDirect i sv s g m =
      (d : List ℕ) × (dirty : Bool) × (s' : Sfs) × (m
        ≡ ok (record sv { sv_i = record (sv.sv_i) { sfi_direct = d }; sv_dirty = dirty }, s'))
      × (length d ≡ 15)
      × Owns s' (file d g) sv.sv_i.sfi_indirect
      × Trimmed s s'
      × ((j : ℕ)
          → get_or d j 0 ≡ (if leb i j && leb blocklen j then 0 else get_or sv.sv_i.sfi_direct j 0))
      × ((j : ℕ)
          → i ≤ j
          → j < 15
          → blocklen ≤ j
          → get_or sv.sv_i.sfi_direct j 0 ≢ 0
          → in_use s' (get_or sv.sv_i.sfi_direct j 0) ≡ false)

  pub free_direct_lem :
      (rounds i : ℕ) (sv : SfsVnode) (s : Sfs) (g : ℕ → ℕ)
      → i + rounds ≡ 15
      → length sv.sv_i.sfi_direct ≡ 15
      → Owns s (file sv.sv_i.sfi_direct g) sv.sv_i.sfi_indirect
      → CutDirect i sv s g (free_direct dev rounds i blocklen sv s)
  unfolding free_direct
  free_direct_lem zero i sv s g e len o = (
    sv.sv_i.sfi_direct,
    sv.sv_dirty,
    s,
    refl,
    len,
    o,
    Trimmed-refl s,
    λ j. ground (arith, past_end sv.sv_i.sfi_direct j, e, len),
    λ j ge lt. absurd (omega (arith, ge, lt, e)),
  )
  free_direct_lem (suc rounds) i sv s g e len o =
      let d = sv.sv_i.sfi_direct in
      let b = get_or d i 0 in
      elim (Bool-cases (leb blocklen i && not (b == 0))) [
        | inr keep ↦
            let (d', dirty, s', r, len', o', t, map, freed) =
              free_direct_lem rounds (i + 1) sv s g (omega (arith, e)) len o in
            (
              d',
              dirty,
              s',
              rw keep r,
              len',
              o',
              t,
              λ j. ground (arith, map j, keep, ap (λ x. get_or d x 0)),
              λ j ge lt past ne. elim (ℕ_discrete i j) [
                | yes same ↦
                    absurd
                      (ne (ap (λ x. get_or d x 0) (sym same) ∙ ground (arith, keep, past, same)))
                | no other ↦ freed j (omega (arith, ge, other)) lt past ne
              ],
            )
        | inl past_it ↦
            let inside : i < 15 = omega (arith, e) in
            let ahead : blocklen ≤ i = ground (arith, past_it) in
            let pos : 0 < b = ground (arith, past_it) in
            let (s1, r1, fr, o1) =
              discard s (file d g) (file (set d i 0) g) sv.sv_i.sfi_indirect i b o
                (omega (arith, inside)) (ground (arith, inside)) pos
                (λ j lj.
                  ground (arith, inside, get_or-set d i j 0 0 (omega (arith, len, inside)))) in
            let (d', dirty, s', r, len', o', t, map, freed) =
              free_direct_lem rounds (i + 1) (with_entry sv i 0) s1 g (omega (arith, e))
                (length-set d i 0 ∙ len) o1 in
            let other = λ (j : ℕ). get_or-set d i j 0 0 (omega (arith, len, inside)) in
            (
              d',
              dirty,
              s',
              ground (arith, past_it, r1, r),
              len',
              o',
              then-Trimmed (Freed-Trimmed s s1 b fr) t,
              λ j. ground (arith, map j, ahead, other j),
              λ j ge lt past ne. elim (ℕ_discrete i j) [
                | yes same ↦
                    subst (λ x. in_use s' (get_or d x 0) ≡ false) same
                      (t.shrinks b (Freed-free s s1 b fr))
                | no diff ↦
                    let at_j : get_or (set d i 0) j 0 ≡ get_or d j 0 =
                      ground (arith, other j, diff) in
                    subst (λ x. in_use s' x ≡ false) at_j
                      (freed j (omega (arith, ge, diff)) lt past λ z. ne (sym at_j ∙ z))
              ],
            )
      ]
