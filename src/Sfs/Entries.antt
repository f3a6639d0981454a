-- ===== src/Sfs/Entries.antt =====
-- os161/kern/fs/sfs/sfs_vnode.c: what the loop of sfs_truncate over the indirect block frees.
use azurespider.Prelude.{
  ℕ, zero, suc, ◌+◌, ◌-◌, ◌≤◌, ◌<◌, ◌≡◌, ◌≢◌, refl, sym, ap, subst, ◌∙◌, inl, inr, Bool, true,
  false, not, ◌&&◌, ◌||◌, Bool-cases, List, ltb, leb, ◌==◌, if◌then◌else◌, get_or, set, length,
  length-set, ℕ_discrete, arith, Run, ok,
}
use azurespider.Bitmap.Bits.{get_or-set}
use azurespider.Sfs.{Device, Sfs}
use azurespider.Sfs.Blocks.{in_use}
use azurespider.Sfs.Owns.{Owns}
use azurespider.Sfs.Truncate.{free_entries}
use azurespider.Sfs.Cut.{
  file, entries, past_end, Trimmed, Trimmed-refl, then-Trimmed, Freed-Trimmed, Freed-free, discard,
}

-- An entry of the indirect block is cleared.
cleared_entry :
    (d idbuf : List ℕ) (j k : ℕ)
    → length idbuf ≡ 128
    → j < 128
    → file d (entries (set idbuf j 0)) k ≡ (if 15 + j == k then 0 else file d (entries idbuf) k)
cleared_entry d idbuf j k len lt =
    ground (arith, lt, get_or-set idbuf j (k - 15) 0 0 (omega (arith, len, lt)))

module _ (dev : Device) (blocklen : ℕ) where
  -- The second loop frees the blocks of the entries from j on that are past the new end, and tells
  -- whether an entry is left and whether one was cleared.
  abbrev pub CutEntries :
      ℕ → List ℕ → List ℕ → ℕ → Bool → Bool → Sfs → Run (List ℕ × Bool × Bool × Sfs) → Type 0
  CutEntries j d idbuf i hasnonzero iddirty s m =
      (idbuf' : List ℕ) × (nonzero : Bool) × (dirty : Bool) × (s' : Sfs) × (m
        ≡ ok (idbuf', nonzero, dirty, s'))
      × (length idbuf' ≡ 128)
      × Owns s' (file d (entries idbuf')) i
      × Trimmed s s'
      × ((l : ℕ)
          → get_or idbuf' l 0 ≡ (if leb j l && ltb blocklen (15 + l) then 0 else get_or idbuf l 0))
      × ((l : ℕ)
          → j ≤ l
          → l < 128
          → blocklen < 15 + l
          → get_or idbuf l 0 ≢ 0
          → in_use s' (get_or idbuf l 0) ≡ false)
      × (nonzero ≡ false
          → (hasnonzero ≡ false) × ((l : ℕ) → j ≤ l → l < 128 → get_or idbuf' l 0 ≡ 0))
      × (dirty ≡ false → (iddirty ≡ false) × (idbuf' ≡ idbuf))

  pub free_entries_lem :
      (rounds j : ℕ) (d idbuf : List ℕ) (i : ℕ) (hasnonzero iddirty : Bool) (s : Sfs)
      → j + rounds ≡ 128
      → length idbuf ≡ 128
      → Owns s (file d (entries idbuf)) i
      → CutEntries j d idbuf i hasnonzero iddirty s
          (free_entries dev rounds j blocklen idbuf hasnonzero iddirty s)
  unfolding free_entries
  free_entries_lem zero j d idbuf i hasnonzero iddirty s e len o = (
    idbuf,
    hasnonzero,
    iddirty,
    s,
    refl,
    len,
    o,
    Trimmed-refl s,
    λ l. ground (arith, past_end idbuf l, e, len),
    λ l ge lt. absurd (omega (arith, ge, lt, e)),
    λ z. (z, λ l ge lt. absurd (omega (arith, ge, lt, e))),
    λ z. (z, refl),
  )
  free_entries_lem (suc rounds) j d idbuf i hasnonzero iddirty s e len o =
      let b = get_or idbuf j 0 in
      let inside : j < 128 = omega (arith, e) in
      elim (Bool-cases (ltb blocklen (15 + j) && not (b == 0))) [
        | inr keep ↦
            let (idbuf', nonzero, dirty, s', r, len', o', t, map, freed, left, clean) =
              free_entries_lem rounds (j + 1) d idbuf i (hasnonzero || not (b == 0)) iddirty s
                (omega (arith, e)) len o in
            (
              idbuf',
              nonzero,
              dirty,
              s',
              rw keep r,
              len',
              o',
              t,
              λ l. ground (arith, map l, keep, ap (λ x. get_or idbuf x 0)),
              λ l ge lt past ne. elim (ℕ_discrete j l) [
                | yes same ↦
                    absurd (
                      ne (ap (λ x. get_or idbuf x 0) (sym same) ∙ ground (arith, keep, past, same)))
                | no other ↦ freed l (omega (arith, ge, other)) lt past ne
              ],
              λ z.
                  let (was, rest) = left z in
                  (
                    ground (arith, was),
                    λ l ge lt. elim (ℕ_discrete j l) [
                      | yes same ↦
                          ap (λ x. get_or idbuf' x 0) (sym same) ∙ map j ∙ ground (arith, was)
                      | no other ↦ rest l (omega (arith, ge, other)) lt
                    ],
                  ),
              clean,
            )
        | inl past_it ↦
            let ahead : blocklen < 15 + j = ground (arith, past_it) in
            let pos : 0 < b = ground (arith, past_it) in
            let at : 15 + j - 15 ≡ j = omega arith in
            let (s1, r1, fr, o1) =
              discard dev blocklen s (file d (entries idbuf)) (file d (entries (set idbuf j 0))) i
                (15 + j) b o (omega (arith, inside)) (ground (arith, ap (λ x. get_or idbuf x 0) at))
                pos (λ k lk. cleared_entry d idbuf j k len inside) in
            let (idbuf', nonzero, dirty, s', r, len', o', t, map, freed, left, clean) =
              free_entries_lem rounds (j + 1) d (set idbuf j 0) i hasnonzero true s1
                (omega (arith, e)) (length-set idbuf j 0 ∙ len) o1 in
            let other = λ (l : ℕ). get_or-set idbuf j l 0 0 (omega (arith, len, inside)) in
            (
              idbuf',
              nonzero,
              dirty,
              s',
              ground (arith, past_it, r1, r),
              len',
              o',
              then-Trimmed (Freed-Trimmed s s1 b fr) t,
              λ l. ground (arith, map l, ahead, other l),
              λ l ge lt past ne. elim (ℕ_discrete j l) [
                | yes same ↦
                    subst (λ x. in_use s' (get_or idbuf x 0) ≡ false) same
                      (t.shrinks b (Freed-free s s1 b fr))
                | no diff ↦
                    let at_l : get_or (set idbuf j 0) l 0 ≡ get_or idbuf l 0 =
                      ground (arith, other l, diff) in
                    subst (λ x. in_use s' x ≡ false) at_l
                      (freed l (omega (arith, ge, diff)) lt past λ z. ne (sym at_l ∙ z))
              ],
              λ z.
                  let (was, rest) = left z in
                  (
                    was,
                    λ l ge lt. elim (ℕ_discrete j l) [
                      | yes same ↦
                          ap (λ x. get_or idbuf' x 0) (sym same) ∙ map j ∙ ground (arith, other j)
                      | no diff ↦ rest l (omega (arith, ge, diff)) lt
                    ],
                  ),
              λ z. absurd (ground (arith, (clean z).1)),
            )
      ]
