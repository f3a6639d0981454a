-- ===== src/Sfs/Entry.antt =====
-- os161/kern/fs/sfs/sfs_vnode.c: sfs_bmap on an entry of the indirect block.
use azurespider.Prelude.{
  ℕ_discrete, ℕ, ◌+◌, ◌-◌, ◌<◌, ◌≡◌, ◌≢◌, refl, sym, ap, subst, ◌∙◌, inl, inr, Bool, Bool-cases,
  List, ◌==◌, ◌&&◌, if◌then◌else◌, if_ne, if_self, get_or, set, length, length-set, dec_lt, arith,
  Run, ok, none, some, ◌>>=◌,
}
use azurespider.Errno.{Answer, err}
use azurespider.Bitmap.Bits.{get_or-set}
use azurespider.Sfs.{Device, Sfs, SfsVnode, put_block, wblock, hand_back, alloc_or_keep, bmap_entry}
use azurespider.Sfs.Words.{length-bytes_of, words_of, bytes_of, words_of-bytes_of}
use azurespider.Sfs.Blocks.{
  in_use, FsValid, Extends, Retries, then-Extends, counted, wblock_lem, balloc_lem,
}
use azurespider.Sfs.Mapping.{block_of, Mapped, block_of-Extends, Mapped-change, Mapped-new}
use azurespider.Sfs.Direct.{
  Spares, spares, Filled, hand_back_lem, keep_lem, kept, alloc_fails, alloc_works,
}

-- A block is written.
abbrev written : Sfs → ℕ → ℕ → List ℕ → Sfs
written s n i bytes = put_block (record s { ios = n }) i bytes

written-FsValid : (s : Sfs) (n i : ℕ) (bytes : List ℕ) → FsValid s → FsValid (written s n i bytes)
written-FsValid s n i bytes v = record {
  map = v.map;
  covers = v.covers;
  beyond = v.beyond;
  super_used = v.super_used;
}

-- The words of the indirect block after one is written.
words-written :
    (s : Sfs) (n i idoff b : ℕ) (idbuf : List ℕ)
    → words_of ((written s n i (bytes_of (set idbuf idoff b))).blocks i) ≡ set idbuf idoff b
words-written s n i idoff b idbuf =
    ap words_of (if_self i (bytes_of (set idbuf idoff b)) (s.blocks i))
    ∙ words_of-bytes_of (set idbuf idoff b)

module _ (s : Sfs) (sv : SfsVnode) (idoff : ℕ) (idbuf : List ℕ) (m : Mapped s sv) (lt : idoff < 128)
    (there : sv.sv_i.sfi_indirect ≢ 0)
    (loaded : words_of (s.blocks sv.sv_i.sfi_indirect) ≡ idbuf) where
  nwords : length idbuf ≡ 128
  nwords = ap length (sym loaded) ∙ (m.nindirect there).2

  pub at_entry : block_of s sv (idoff + 15) ≡ get_or idbuf idoff 0
  at_entry =
      let past : idoff + 15 - 15 ≡ idoff = omega arith in
      ground (
        arith,
        there,
        loaded,
        ap (λ ws. get_or ws (idoff + 15 - 15) 0) loaded,
        ap (λ o. get_or idbuf o 0) past,
      )

  block_of-written :
      (s1 : Sfs) (n b j : ℕ)
      → Extends s s1
      → block_of (written s1 n sv.sv_i.sfi_indirect (bytes_of (set idbuf idoff b))) sv j
        ≡ (if idoff + 15 == j then b else block_of s sv j)
  block_of-written s1 n b j x = elim (dec_lt j 15) [
    | yes low ↦ ground (arith, low)
    | no high ↦
        let now =
          ap (λ ws. get_or ws (j - 15) 0) (words-written s1 n sv.sv_i.sfi_indirect idoff b idbuf) in
        let before = ap (λ ws. get_or ws (j - 15) 0) loaded in
        ground (
          arith,
          high,
          there,
          now,
          before,
          get_or-set idbuf idoff (j - 15) b 0 (omega (arith, nwords, lt)),
        )
  ]

  written-Spares :
      (s1 : Sfs) (n : ℕ) (bytes : List ℕ)
      → Extends s s1
      → length bytes ≡ 512
      → Spares s (written s1 n sv.sv_i.sfi_indirect bytes) sv.sv_i.sfi_indirect
  written-Spares s1 n bytes x len = record {
    same_nblocks = x.same_nblocks;
    keeps_used = x.keeps_used;
    keeps_data = λ b used ne.
        if_ne sv.sv_i.sfi_indirect b bytes (s1.blocks b) (λ e. ne (sym e)) ∙ x.keeps_data b used;
    keeps_size = λ z b. elim (ℕ_discrete sv.sv_i.sfi_indirect b) [
      | yes e ↦
          ap length
            (ap (λ c. if c == b then bytes else s1.blocks b) e ∙ if_self b bytes (s1.blocks b))
          ∙ len
      | no ne ↦ ap length (if_ne sv.sv_i.sfi_indirect b bytes (s1.blocks b) ne) ∙ x.keeps_size z b
    ];
  }

module _ (dev : Device) where
  -- sfs_bmap on an entry of the indirect block that is loaded.
  pub entry_lem :
      (idoff : ℕ) (idbuf : List ℕ) (doalloc : Bool) (sv : SfsVnode) (s : Sfs)
      → Retries dev s.sp_nblocks
      → Mapped s sv
      → idoff < 128
      → sv.sv_i.sfi_indirect ≢ 0
      → words_of (s.blocks sv.sv_i.sfi_indirect) ≡ idbuf
      → Filled s sv
          (idoff + 15)
          doalloc
          (bmap_entry dev sv.sv_i.sfi_indirect idoff idbuf doalloc sv s)
  unfolding bmap_entry
  entry_lem idoff idbuf doalloc sv s takes m lt there loaded =
      let i = sv.sv_i.sfi_indirect in
      let k = idoff + 15 in
      let keep : ℕ → Sfs → Run (Answer ℕ × SfsVnode × Sfs) = λ b s1. (do
        (result, s2) ← wblock dev (bytes_of (set idbuf idoff b)) i s1
        elim result [ some e ↦ ok (err e, sv, s2) | none ↦ hand_back dev b sv s2 ]) in
      let here = at_entry s sv idoff idbuf m lt there loaded in
      let same : bmap_entry dev i idoff idbuf doalloc sv s
          ≡ alloc_or_keep dev (block_of s sv k) doalloc sv s keep =
        ap (λ b. alloc_or_keep dev b doalloc sv s keep) (sym here) in
      let (small_i, used_i, len_i) = m.nindirect there in
      elim (Bool-cases (block_of s sv k == 0 && doalloc)) [
        | inr e ↦
            kept dev k doalloc sv s (bmap_entry dev i idoff idbuf doalloc sv s) m e
              (same ∙ keep_lem dev k doalloc sv s keep m (omega (arith, lt)) e)
        | inl e ↦ elim (balloc_lem dev s takes m.fs) [
          | inl (x, s1, r, ext) ↦ inl (
            x,
            sv,
            s1,
            same ∙ alloc_fails dev (block_of s sv k) doalloc sv s keep e x s1 r,
            Mapped-change s s1 sv m ext,
            λ j lj. block_of-Extends s s1 sv j m ext,
            spares i ext,
            refl,
          )
          | inr (b, s1, r, ext, small, pos, free, marked, zeros) ↦
              let reach = same ∙ alloc_works dev (block_of s sv k) doalloc sv s keep e b s1 r in
              elim (wblock_lem dev s1 (subst (Retries dev) (sym ext.same_nblocks) takes)
                (bytes_of (set idbuf idoff b)) i (omega (arith, small_i, ext.same_nblocks))) [
                  | inl (x, n, w) ↦
                      let ext2 = then-Extends ext (counted s1 n ext.valid) in
                      inl (
                        x,
                        sv,
                        record s1 { ios = n },
                        reach ∙ ground (arith, w),
                        Mapped-change s (record s1 { ios = n }) sv m ext2,
                        λ j lj. block_of-Extends s (record s1 { ios = n }) sv j m ext2,
                        spares i ext2,
                        refl,
                      )
                  | inr (n, w) ↦
                      let sized : length (bytes_of (set idbuf idoff b)) ≡ 512 =
                        length-bytes_of (set idbuf idoff b)
                        ∙ omega (
                          arith,
                          length-set idbuf idoff b,
                          nwords s sv idoff idbuf m lt there loaded,
                        ) in
                      let s2 = written s1 n i (bytes_of (set idbuf idoff b)) in
                      let v2 = written-FsValid s1 n i (bytes_of (set idbuf idoff b)) ext.valid in
                      let back =
                        hand_back_lem dev b sv s2 v2
                          λ ne. (omega (arith, small, ext.same_nblocks), marked) in
                      let map = λ (j : ℕ) (lj : j < 143).
                        block_of-written s sv idoff idbuf m lt there loaded s1 n b j ext in
                      inr (
                        b,
                        sv,
                        s2,
                        reach ∙ ground (arith, w, back),
                        Mapped-new s s2 sv sv k b m v2 ext.same_nblocks ext.keeps_used small pos
                            free marked m.ndirect refl
                            (λ ne.
                              ap length (words-written s1 n i idoff b idbuf)
                              ∙ length-set idbuf idoff b
                              ∙ nwords s sv idoff idbuf m lt there loaded)
                            map,
                        map,
                        λ ne. absurd (ne (ground (arith, e))),
                        λ da z. omega (arith, z, pos),
                        λ z ne. (
                          free,
                          marked,
                          if_ne i b (bytes_of (set idbuf idoff b)) (s1.blocks b)
                                (λ e. ground (arith, ap (in_use s) e, used_i, free))
                              ∙ zeros,
                        ),
                        written-Spares s sv idoff idbuf m lt there loaded s1 n
                            (bytes_of (set idbuf idoff b)) ext sized,
                        refl,
                      )
                ]
        ]
      ]
