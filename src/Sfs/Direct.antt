-- ===== src/Sfs/Direct.antt =====
-- os161/kern/fs/sfs/sfs_vnode.c: what sfs_bmap does to the map of a file.
use azurespider.Prelude.{
  replicate, ℕ, ◌<◌, ◌≡◌, ◌≢◌, refl, sym, ap, ◌∙◌, ◌⊎◌, inl, inr, Bool, true, false, Bool-cases,
  ◌==◌, ◌&&◌, if◌then◌else◌, if_ne, get_or, set, length, length-set, ℕ_discrete, dec_lt, arith, Run,
  ok,
}
use azurespider.Errno.{Errno, Answer, err, got}
use azurespider.Bitmap.Bits.{get_or-set}
use azurespider.Sfs.{Device, Sfs, SfsVnode, balloc, hand_back, alloc_or_keep, bmap_direct}
use azurespider.Sfs.Words.{words_of}
use azurespider.Sfs.Blocks.{
  IsSized, in_use, FsValid, Extends, Retries, unchanged, balloc_lem, bused_lem,
}
use azurespider.Sfs.Mapping.{block_of, Mapped, block_of-Extends, Mapped-change, Mapped-new}

-- Blocks that were in use stay so, and keep what they hold, but for the block i.
pub record Spares (s s' : Sfs) (i : ℕ) : Type 0 where
  pub same_nblocks : s'.sp_nblocks ≡ s.sp_nblocks
  pub keeps_used : (b : ℕ) → in_use s b ≡ true → in_use s' b ≡ true
  pub keeps_data : (b : ℕ) → in_use s b ≡ true → b ≢ i → s'.blocks b ≡ s.blocks b
  pub keeps_size : IsSized s → IsSized s'

pub spares : {s s' : Sfs} (i : ℕ) → Extends s s' → Spares s s' i
spares i x = record {
  same_nblocks = x.same_nblocks;
  keeps_used = x.keeps_used;
  keeps_data = λ b h ne. x.keeps_data b h;
  keeps_size = x.keeps_size;
}

-- sfs_bmap fails, and the map of the file is as it was, or it hands out the block at k, and the map is
-- as it was but there; the size is as it was. A block that was there is handed out, one is there if it may allocate, and a new
-- one was free, is in use and holds zeros.
abbrev pub Filled : Sfs → SfsVnode → ℕ → Bool → Run (Answer ℕ × SfsVnode × Sfs) → Type 0
Filled s sv k doalloc m =
    ((e : Errno) × (sv' : SfsVnode) × (s' : Sfs) × (m ≡ ok (err e, sv', s'))
      × Mapped s' sv'
      × ((j : ℕ) → j < 143 → block_of s' sv' j ≡ block_of s sv j)
      × Spares s s' sv.sv_i.sfi_indirect
      × (sv'.sv_i.sfi_size ≡ sv.sv_i.sfi_size))
    ⊎ ((b : ℕ) × (sv' : SfsVnode) × (s' : Sfs) × (m ≡ ok (got b, sv', s'))
        × Mapped s' sv'
        × ((j : ℕ) → j < 143 → block_of s' sv' j ≡ (if k == j then b else block_of s sv j))
        × (block_of s sv k ≢ 0 → b ≡ block_of s sv k)
        × (doalloc ≡ true → b ≢ 0)
        × (block_of s sv k ≡ 0
            → b ≢ 0
            → (in_use s b ≡ false) × (in_use s' b ≡ true) × (s'.blocks b ≡ replicate 512 0))
        × Spares s s' sv.sv_i.sfi_indirect
        × (sv'.sv_i.sfi_size ≡ sv.sv_i.sfi_size))

module _ (dev : Device) where
  -- A block in use passes the check at the end.
  pub hand_back_lem :
      (b : ℕ) (sv : SfsVnode) (s : Sfs)
      → FsValid s
      → (b ≢ 0 → (b < s.sp_nblocks) × (in_use s b ≡ true))
      → hand_back dev b sv s ≡ ok (got b, sv, s)
  unfolding hand_back
  hand_back_lem b sv s v h = elim (ℕ_discrete b 0) [
    | yes z ↦ ground (arith, z)
    | no ne ↦ let (lt, used) = h ne in ground (arith, ne, bused_lem dev s b v lt, used)
  ]

  -- The block at k is there, or is not asked for.
  pub keep_lem :
      (k : ℕ) (doalloc : Bool) (sv : SfsVnode) (s : Sfs)
      (keep : ℕ → Sfs → Run (Answer ℕ × SfsVnode × Sfs))
      → Mapped s sv
      → k < 143
      → (block_of s sv k == 0 && doalloc) ≡ false
      → alloc_or_keep dev (block_of s sv k) doalloc sv s keep ≡ ok (got (block_of s sv k), sv, s)
  unfolding alloc_or_keep
  keep_lem k doalloc sv s keep m lt e =
      rw e (hand_back_lem (block_of s sv k) sv s m.fs (m.used k lt))

  pub kept :
      (k : ℕ) (doalloc : Bool) (sv : SfsVnode) (s : Sfs) (m : Run (Answer ℕ × SfsVnode × Sfs))
      → Mapped s sv
      → (block_of s sv k == 0 && doalloc) ≡ false
      → m ≡ ok (got (block_of s sv k), sv, s)
      → Filled s sv k doalloc m
  kept k doalloc sv s m w e r = inr (
    block_of s sv k,
    sv,
    s,
    r,
    w,
    λ j lj. elim (ℕ_discrete k j) [
      | yes at ↦ ap (block_of s sv) (sym at) ∙ ground (arith, at)
      | no other ↦ sym (if_ne k j (block_of s sv k) (block_of s sv j) other)
    ],
    λ ne. refl,
    λ da z. ground (arith, e, da, z),
    λ z ne. absurd (ne z),
    spares sv.sv_i.sfi_indirect (unchanged s w.fs),
    refl,
  )

  -- The block at k is missing, and is asked for.
  module _ (block : ℕ) (doalloc : Bool) (sv : SfsVnode) (s : Sfs)
      (keep : ℕ → Sfs → Run (Answer ℕ × SfsVnode × Sfs)) (e : (block == 0 && doalloc) ≡ true) where
    pub alloc_fails :
        (x : Errno) (s' : Sfs)
        → balloc dev s ≡ ok (err x, s')
        → alloc_or_keep dev block doalloc sv s keep ≡ ok (err x, sv, s')
    unfolding alloc_or_keep
    alloc_fails x s' r = ground (arith, e, r)

    pub alloc_works :
        (b : ℕ) (s' : Sfs)
        → balloc dev s ≡ ok (got b, s')
        → alloc_or_keep dev block doalloc sv s keep ≡ keep b s'
    unfolding alloc_or_keep
    alloc_works b s' r = ground (arith, e, r)

  abbrev with_direct : SfsVnode → ℕ → ℕ → SfsVnode
  with_direct sv k b = record sv {
    sv_i = record (sv.sv_i) { sfi_direct = set sv.sv_i.sfi_direct k b };
    sv_dirty = true;
  }

  block_of-with_direct :
      (s s1 : Sfs) (sv : SfsVnode) (k b j : ℕ)
      → Mapped s sv
      → Extends s s1
      → k < 15
      → block_of s1 (with_direct sv k b) j ≡ (if k == j then b else block_of s sv j)
  block_of-with_direct s s1 sv k b j m x lt = elim (dec_lt j 15) [
    | yes low ↦
        ground (arith, low, get_or-set sv.sv_i.sfi_direct k j b 0 (omega (arith, m.ndirect, lt)))
    | no high ↦
        let other : k ≢ j = λ e. absurd (omega (arith, e, lt, high)) in
        ground (arith, high, lt, block_of-Extends s s1 sv j m x)
  ]

  pub direct_lem :
      (k : ℕ) (doalloc : Bool) (sv : SfsVnode) (s : Sfs)
      → Retries dev s.sp_nblocks
      → Mapped s sv
      → k < 15
      → Filled s sv k doalloc (bmap_direct dev k doalloc sv s)
  unfolding bmap_direct
  direct_lem k doalloc sv s takes m lt =
      let keep : ℕ → Sfs → Run (Answer ℕ × SfsVnode × Sfs) =
        λ b s1. hand_back dev b (with_direct sv k b) s1 in
      let here : block_of s sv k ≡ get_or sv.sv_i.sfi_direct k 0 = ground (arith, lt) in
      let same : bmap_direct dev k doalloc sv s
          ≡ alloc_or_keep dev (block_of s sv k) doalloc sv s keep =
        ap (λ b. alloc_or_keep dev b doalloc sv s keep) (sym here) in
      elim (Bool-cases (block_of s sv k == 0 && doalloc)) [
        | inr e ↦
            kept k doalloc sv s (bmap_direct dev k doalloc sv s) m e
              (same ∙ keep_lem k doalloc sv s keep m (omega (arith, lt)) e)
        | inl e ↦ elim (balloc_lem dev s takes m.fs) [
          | inl (x, s1, r, ext) ↦ inl (
            x,
            sv,
            s1,
            same ∙ alloc_fails (block_of s sv k) doalloc sv s keep e x s1 r,
            Mapped-change s s1 sv m ext,
            λ j lj. block_of-Extends s s1 sv j m ext,
            spares sv.sv_i.sfi_indirect ext,
            refl,
          )
          | inr (b, s1, r, ext, small, pos, free, marked, zeros) ↦ inr (
            b,
            with_direct sv k b,
            s1,
            same
                ∙ alloc_works (block_of s sv k) doalloc sv s keep e b s1 r
                ∙ hand_back_lem b (with_direct sv k b) s1 ext.valid
                    λ ne. (omega (arith, small, ext.same_nblocks), marked),
            Mapped-new s s1 sv (with_direct sv k b) k b m ext.valid ext.same_nblocks ext.keeps_used
                small pos free marked (length-set sv.sv_i.sfi_direct k b ∙ m.ndirect) refl
                (λ ne.
                  ap (λ w. length (words_of w))
                    (ext.keeps_data sv.sv_i.sfi_indirect ((m.nindirect ne).1))
                  ∙ (m.nindirect ne).2)
                (λ j lj. block_of-with_direct s s1 sv k b j m ext lt),
            λ j lj. block_of-with_direct s s1 sv k b j m ext lt,
            λ ne. absurd (ne (ground (arith, e))),
            λ da z. omega (arith, z, pos),
            λ z ne. (free, marked, zeros),
            spares sv.sv_i.sfi_indirect ext,
            refl,
          )
        ]
      ]
