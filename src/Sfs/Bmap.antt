-- ===== src/Sfs/Bmap.antt =====
-- os161/kern/fs/sfs/sfs_vnode.c: sfs_bmap on a block behind the direct ones.
use azurespider.Prelude.{
  ℕ, ◌+◌, ◌-◌, ◌%◌, ◌≤◌, ◌<◌, ◌≡◌, refl, sym, ap, subst, ◌∙◌, inl, inr, Bool, true, false,
  Bool-cases, ◌==◌, if◌then◌else◌, get_or, length, replicate, ℕ_discrete, dec_lt, arith, Run, ok,
}
use azurespider.Errno.{einval, Answer, err}
use azurespider.Sfs.{Device, Sfs, SfsVnode, bmap_direct, bmap_entry, bmap_indirect, bmap}
use azurespider.Sfs.Words.{get_or-zeros, words_of, words_of-zeros}
use azurespider.Sfs.Blocks.{in_use, Extends, Retries, counted, rblock_lem, balloc_lem}
use azurespider.Sfs.Mapping.{block_of, Mapped, block_of-Extends, Mapped-change}
use azurespider.Sfs.Direct.{Spares, spares, Filled, kept, direct_lem}
use azurespider.Sfs.Entry.{entry_lem}

-- What holds from a later state on holds from an earlier one with the same map.
transfer :
    (s s1 : Sfs) (sv sv1 : SfsVnode) (k : ℕ) (doalloc : Bool)
    (m m1 : Run (Answer ℕ × SfsVnode × Sfs))
    → ((j : ℕ) → block_of s1 sv1 j ≡ block_of s sv j)
    → ((s' : Sfs) → Spares s1 s' sv1.sv_i.sfi_indirect → Spares s s' sv.sv_i.sfi_indirect)
    → ((c : ℕ) → in_use s1 c ≡ false → in_use s c ≡ false)
    → sv1.sv_i.sfi_size ≡ sv.sv_i.sfi_size
    → m ≡ m1
    → Filled s1 sv1 k doalloc m1
    → Filled s sv k doalloc m
transfer s s1 sv sv1 k da m m1 same spare was size e (inl (x, sv', s', r, w, map, sp, z)) =
    inl (x, sv', s', e ∙ r, w, λ j lj. map j lj ∙ same j, spare s' sp, z ∙ size)
transfer s s1 sv sv1 k da m m1 same spare was size e
      (inr (b, sv', s', r, w, map, old, new, blank, sp, z)) =
    inr (
      b,
      sv',
      s',
      e ∙ r,
      w,
      λ j lj. map j lj ∙ ap (λ c. if k == j then b else c) (same j),
      λ ne. old (λ z. ne (sym (same k) ∙ z)) ∙ same k,
      new,
      λ z ne. let (free, used, zeros) = blank (same k ∙ z) ne in (was b free, used, zeros),
      spare s' sp,
      z ∙ size,
    )

abbrev with_indirect : SfsVnode → ℕ → SfsVnode
with_indirect sv b = record sv { sv_i = record (sv.sv_i) { sfi_indirect = b }; sv_dirty = true }

-- A file gets an indirect block of zeros.
module _ (s s1 : Sfs) (sv : SfsVnode) (b : ℕ) (m : Mapped s sv) (x : Extends s s1)
    (hole : sv.sv_i.sfi_indirect ≡ 0) (small : b < s.sp_nblocks) (pos : 0 < b)
    (free : in_use s b ≡ false) (marked : in_use s1 b ≡ true)
    (zeros : s1.blocks b ≡ replicate 512 0) where
  blank : words_of (s1.blocks b) ≡ replicate 128 0
  blank = ap words_of zeros ∙ words_of-zeros

  same_map : (j : ℕ) → block_of s1 (with_indirect sv b) j ≡ block_of s sv j
  same_map j = elim (dec_lt j 15) [
    | yes low ↦ ground (arith, low)
    | no high ↦
        let z = ap (λ ws. get_or ws (j - 15) 0) blank ∙ get_or-zeros 128 (j - 15) in
        ground (arith, high, hole, pos, z)
  ]

  with_indirect-Mapped : Mapped s1 (with_indirect sv b)
  with_indirect-Mapped = record {
    fs = x.valid;
    ndirect = m.ndirect;
    nindirect = λ ne. (omega (arith, small, x.same_nblocks), marked, ap length blank);
    used = λ k lk ne.
        let (lt, used) = m.used k lk λ z. ne (same_map k ∙ z) in
        (
          omega (arith, same_map k, lt, x.same_nblocks),
          subst (λ c. in_use s1 c ≡ true) (sym (same_map k)) (x.keeps_used (block_of s sv k) used),
        );
    apart = λ j k lj lk ne e. same_map j ∙ m.apart j k lj lk ne (sym (same_map j) ∙ e ∙ same_map k);
    apart_indirect = λ k lk e.
        let used = (m.used k lk λ z. absurd (omega (arith, same_map k, e, z, pos))).1 in
        absurd (ground (arith, ap (in_use s) (sym (same_map k) ∙ e), used, free));
  }

  was_free : (c : ℕ) → in_use s1 c ≡ false → in_use s c ≡ false
  was_free c f = elim (Bool-cases (in_use s c)) [
    | inl h ↦ absurd (ground (arith, x.keeps_used c h, f))
    | inr h ↦ h
  ]

  fresh-Spares : (s' : Sfs) → Spares s1 s' b → Spares s s' sv.sv_i.sfi_indirect
  fresh-Spares s' sp = record {
    same_nblocks = sp.same_nblocks ∙ x.same_nblocks;
    keeps_used = λ c h. sp.keeps_used c (x.keeps_used c h);
    keeps_data = λ c h ne.
        sp.keeps_data c (x.keeps_used c h) (λ e. ground (arith, ap (in_use s) e, h, free))
        ∙ x.keeps_data c h;
    keeps_size = λ z. sp.keeps_size (x.keeps_size z);
  }

module _ (dev : Device) where
  indirect_lem :
      (idoff : ℕ) (doalloc : Bool) (sv : SfsVnode) (s : Sfs)
      → Retries dev s.sp_nblocks
      → Mapped s sv
      → idoff < 128
      → Filled s sv (idoff + 15) doalloc (bmap_indirect dev idoff doalloc sv s)
  unfolding bmap_indirect
  indirect_lem idoff doalloc sv s takes m lt = elim (ℕ_discrete sv.sv_i.sfi_indirect 0) [
    | yes hole ↦ elim (Bool-cases doalloc) [
      | inr look ↦
          let z : block_of s sv (idoff + 15) ≡ 0 = ground (arith, hole) in
          kept dev (idoff + 15) doalloc sv s (bmap_indirect dev idoff doalloc sv s) m
            (ground (arith, look)) (ground (arith, hole, look, z))
      | inl fill ↦ elim (balloc_lem dev s takes m.fs) [
        | inl (e, s1, r, x) ↦ inl (
          e,
          sv,
          s1,
          ground (arith, hole, fill, r),
          Mapped-change s s1 sv m x,
          λ j lj. block_of-Extends s s1 sv j m x,
          spares sv.sv_i.sfi_indirect x,
          refl,
        )
        | inr (b, s1, r, x, small, pos, free, marked, zeros) ↦
            transfer s s1 sv (with_indirect sv b) (idoff + 15) doalloc
              (bmap_indirect dev idoff doalloc sv s)
              (bmap_entry dev b idoff (replicate 128 0) doalloc (with_indirect sv b) s1)
              (same_map s s1 sv b m x hole small pos free marked zeros)
              (fresh-Spares s s1 sv b m x hole small pos free marked zeros)
              (was_free s s1 sv b m x hole small pos free marked zeros) refl
              (ground (arith, hole, fill, r))
              (entry_lem dev idoff (replicate 128 0) doalloc (with_indirect sv b) s1
                (subst (Retries dev) (sym x.same_nblocks) takes)
                (with_indirect-Mapped s s1 sv b m x hole small pos free marked zeros) lt
                (λ z. omega (arith, z, pos)) (blank s s1 sv b m x hole small pos free marked zeros))
      ]
    ]
    | no there ↦
        let (small, used, len) = m.nindirect there in
        elim (rblock_lem dev s takes.0 sv.sv_i.sfi_indirect small) [
          | inl (e, n, r) ↦
              let x = counted s n m.fs in
              inl (
                e,
                sv,
                record s { ios = n },
                ground (arith, there, r),
                Mapped-change s (record s { ios = n }) sv m x,
                λ j lj. refl,
                spares sv.sv_i.sfi_indirect x,
                refl,
              )
          | inr (n, r) ↦
              let s1 : Sfs = record s { ios = n } in
              transfer s s1 sv sv (idoff + 15) doalloc (bmap_indirect dev idoff doalloc sv s)
                (bmap_entry dev sv.sv_i.sfi_indirect idoff
                  (words_of (s.blocks sv.sv_i.sfi_indirect)) doalloc sv s1)
                (λ j. refl)
                (λ s' sp. record {
                  same_nblocks = sp.same_nblocks;
                  keeps_used = sp.keeps_used;
                  keeps_data = sp.keeps_data;
                  keeps_size = sp.keeps_size;
                })
                (λ c h. h) refl (ground (arith, there, r))
                (entry_lem dev idoff (words_of (s.blocks sv.sv_i.sfi_indirect)) doalloc sv s1 takes
                  (Mapped-change s s1 sv m (counted s n m.fs)) lt there refl)
        ]
  ]

  -- sfs_bmap on a block that a file can have hands out its block, or fails with the map as it was; with
  -- doalloc set it fills a hole with a block that was free, and that is then in use and holds zeros. It
  -- keeps every other entry of the map, the separation of the file's blocks, and what all blocks in use
  -- hold but the indirect block. Its check that the block is marked in use never fails. The device is
  -- one on which no d_io that returned EIO has used up its uio.
  pub bmap_lem :
      (k : ℕ) (doalloc : Bool) (sv : SfsVnode) (s : Sfs)
      → Retries dev s.sp_nblocks
      → Mapped s sv
      → k < 143
      → Filled s sv k doalloc (bmap dev k doalloc sv s)
  unfolding bmap
  bmap_lem k doalloc sv s takes m lt = elim (dec_lt k 15) [
    | yes low ↦
        transfer s s sv sv k doalloc (bmap dev k doalloc sv s) (bmap_direct dev k doalloc sv s)
          (λ j. refl) (λ s' sp. sp) (λ c h. h) refl (ground (arith, low))
          (direct_lem dev k doalloc sv s takes m low)
    | no high ↦
        let off : (k - 15) % 128 ≡ k - 15 = omega (arith, lt) in
        let back : k - 15 + 15 ≡ k = omega (arith, high) in
        transfer s s sv sv k doalloc (bmap dev k doalloc sv s)
          (bmap_indirect dev (k - 15) doalloc sv s) (λ j. refl) (λ s' sp. sp) (λ c h. h) refl
          (ground (arith, high, lt, off))
          (subst (λ i. Filled s sv i doalloc (bmap_indirect dev (k - 15) doalloc sv s)) back
            (indirect_lem (k - 15) doalloc sv s takes m (omega (arith, lt, high))))
  ]

  -- sfs_bmap refuses a block past the largest file with EINVAL, and changes nothing.
  pub bmap_past :
      (k : ℕ) (doalloc : Bool) (sv : SfsVnode) (s : Sfs)
      → 143 ≤ k
      → bmap dev k doalloc sv s ≡ ok (err einval, sv, s)
  unfolding bmap
  bmap_past k doalloc sv s ge = ground (arith, ge)
