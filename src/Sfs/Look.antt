-- ===== src/Sfs/Look.antt =====
-- os161/kern/fs/sfs/sfs_vnode.c: sfs_bmap that does not allocate, and the bytes of a file.
use azurespider.Prelude.{
  ℕ, ◌+◌, ◌-◌, ◌/◌, ◌%◌, ◌<◌, ◌≡◌, ◌≢◌, refl, sym, ap, ◌∙◌, ◌⊎◌, inl, inr, false, ◌==◌, ◌&&◌,
  if◌then◌else◌, get_or, ℕ_discrete, dec_lt, arith, Run, ok,
}
use azurespider.Errno.{Errno, Answer, err, got}
use azurespider.Sfs.{
  Device, Sfs, SfsVnode, alloc_or_keep, bmap_direct, bmap_entry, bmap_indirect, bmap,
}
use azurespider.Sfs.Words.{words_of}
use azurespider.Sfs.Blocks.{Accepts, counted, rblock_lem}
use azurespider.Sfs.Mapping.{block_of, Mapped, Mapped-change}
use azurespider.Sfs.Direct.{keep_lem}
use azurespider.Sfs.Entry.{at_entry}

-- Byte j of a file; a hole holds zeros.
abbrev pub byte_at : Sfs → SfsVnode → ℕ → ℕ
byte_at s sv j =
    if block_of s sv (j / 512) == 0
    then 0
    else get_or (s.blocks (block_of s sv (j / 512))) (j % 512) 0

no_alloc : (b : ℕ) → (b == 0 && false) ≡ false
no_alloc b = ground arith

module _ (dev : Device) where
  -- sfs_bmap without doalloc tells the block, or fails, and changes nothing.
  abbrev pub Looks : Sfs → SfsVnode → ℕ → Run (Answer ℕ × SfsVnode × Sfs) → Type 0
  Looks s sv k m =
      ((e : Errno) × (n : ℕ) × (m ≡ ok (err e, sv, record s { ios = n })))
      ⊎ ((n : ℕ) × (m ≡ ok (got (block_of s sv k), sv, record s { ios = n })))

  same_block :
      (b k : ℕ) (sv : SfsVnode) (s : Sfs) (keep : ℕ → Sfs → Run (Answer ℕ × SfsVnode × Sfs))
      → Mapped s sv
      → k < 143
      → block_of s sv k ≡ b
      → alloc_or_keep dev b false sv s keep ≡ ok (got (block_of s sv k), sv, s)
  same_block b k sv s keep m lt e =
      ap (λ c. alloc_or_keep dev c false sv s keep) (sym e)
      ∙ keep_lem dev k false sv s keep m lt (no_alloc (block_of s sv k))

  look_direct :
      (k : ℕ) (sv : SfsVnode) (s : Sfs)
      → Mapped s sv
      → k < 15
      → bmap_direct dev k false sv s ≡ ok (got (block_of s sv k), sv, s)
  unfolding bmap_direct
  look_direct k sv s m lt =
      same_block (get_or sv.sv_i.sfi_direct k 0) k sv s _ m (omega (arith, lt)) (ground (arith, lt))

  look_entry :
      (idoff : ℕ) (sv : SfsVnode) (s : Sfs)
      → Mapped s sv
      → idoff < 128
      → sv.sv_i.sfi_indirect ≢ 0
      → bmap_entry dev sv.sv_i.sfi_indirect idoff
          (words_of (s.blocks sv.sv_i.sfi_indirect))
          false
          sv
          s
        ≡ ok (got (block_of s sv (idoff + 15)), sv, s)
  unfolding bmap_entry
  look_entry idoff sv s m lt there =
      same_block (get_or (words_of (s.blocks sv.sv_i.sfi_indirect)) idoff 0) (idoff + 15) sv s _ m
        (omega (arith, lt))
        (at_entry s sv idoff (words_of (s.blocks sv.sv_i.sfi_indirect)) m lt there refl)

  look_indirect :
      (idoff : ℕ) (sv : SfsVnode) (s : Sfs)
      → Accepts dev s.sp_nblocks
      → Mapped s sv
      → idoff < 128
      → Looks s sv (idoff + 15) (bmap_indirect dev idoff false sv s)
  unfolding bmap_indirect
  look_indirect idoff sv s takes m lt = elim (ℕ_discrete sv.sv_i.sfi_indirect 0) [
    | yes hole ↦
        let z : block_of s sv (idoff + 15) ≡ 0 = ground (arith, hole) in
        inr (s.ios, ground (arith, hole, z))
    | no there ↦ elim (rblock_lem dev s takes sv.sv_i.sfi_indirect (m.nindirect there).0) [
      | inl (e, n, r) ↦ inl (e, n, ground (arith, there, r))
      | inr (n, r) ↦
          let s1 : Sfs = record s { ios = n } in
          inr (
            n,
            ground (
              arith,
              there,
              r,
              look_entry idoff sv s1 (Mapped-change s s1 sv m (counted s n m.fs)) lt there,
            ),
          )
    ]
  ]

  pub look_lem :
      (k : ℕ) (sv : SfsVnode) (s : Sfs)
      → Accepts dev s.sp_nblocks
      → Mapped s sv
      → k < 143
      → Looks s sv k (bmap dev k false sv s)
  unfolding bmap
  look_lem k sv s takes m lt = elim (dec_lt k 15) [
    | yes low ↦ inr (s.ios, ground (arith, low, look_direct k sv s m low))
    | no high ↦
        let off : (k - 15) % 128 ≡ k - 15 = omega (arith, lt) in
        let back : k - 15 + 15 ≡ k = omega (arith, high) in
        elim (look_indirect (k - 15) sv s takes m (omega (arith, lt, high))) [
          | inl (e, n, r) ↦ inl (e, n, ground (arith, high, lt, off, r))
          | inr (n, r) ↦ inr (
            n,
            ground (arith, high, lt, off, r)
                ∙ ap (λ i. ok (got (block_of s sv i), sv, record s { ios = n })) back,
          )
        ]
  ]
