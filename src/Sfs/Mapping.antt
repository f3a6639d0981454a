-- ===== src/Sfs/Mapping.antt =====
-- os161/kern/fs/sfs/sfs_vnode.c: which disk block holds which block of a file.
use azurespider.Prelude.{
  ℕ_discrete, if_ne, ℕ, ◌-◌, ◌<◌, ◌≡◌, ◌≢◌, sym, ap, subst, ◌∙◌, inl, inr, true, false, Bool-cases,
  ltb, ◌==◌, if◌then◌else◌, get_or, length, arith,
}
use azurespider.Sfs.{Sfs, SfsVnode}
use azurespider.Sfs.Words.{words_of}
use azurespider.Sfs.Blocks.{in_use, FsValid, Extends}

-- The disk block of block k of a file, 0 for a hole.
abbrev pub block_of : Sfs → SfsVnode → ℕ → ℕ
block_of s sv k =
    if ltb k 15
    then get_or sv.sv_i.sfi_direct k 0
    else if sv.sv_i.sfi_indirect == 0
    then 0
    else get_or (words_of (s.blocks sv.sv_i.sfi_indirect)) (k - 15) 0

-- The blocks of a file are blocks of the file system in use, no two blocks of the file share one, and
-- none is the file's indirect block.
pub record Mapped (s : Sfs) (sv : SfsVnode) : Type 0 where
  pub fs : FsValid s
  pub ndirect : length sv.sv_i.sfi_direct ≡ 15
  pub nindirect :
      sv.sv_i.sfi_indirect ≢ 0
      → (sv.sv_i.sfi_indirect < s.sp_nblocks)
        × (in_use s sv.sv_i.sfi_indirect ≡ true)
        × (length (words_of (s.blocks sv.sv_i.sfi_indirect)) ≡ 128)
  pub used :
      (k : ℕ)
      → k < 143
      → block_of s sv k ≢ 0
      → (block_of s sv k < s.sp_nblocks) × (in_use s (block_of s sv k) ≡ true)
  pub apart :
      (j k : ℕ)
      → j < 143
      → k < 143
      → j ≢ k
      → block_of s sv j ≡ block_of s sv k
      → block_of s sv j ≡ 0
  pub apart_indirect :
      (k : ℕ) → k < 143 → block_of s sv k ≡ sv.sv_i.sfi_indirect → block_of s sv k ≡ 0

-- A change of the file system that leaves the indirect block alone leaves the map alone.
pub block_of-Extends :
    (s s' : Sfs) (sv : SfsVnode) (k : ℕ)
    → Mapped s sv
    → Extends s s'
    → block_of s' sv k ≡ block_of s sv k
block_of-Extends s s' sv k m x = elim (Bool-cases (sv.sv_i.sfi_indirect == 0)) [
  | inl none_yet ↦ ground (arith, none_yet)
  | inr there ↦
      let same = x.keeps_data sv.sv_i.sfi_indirect (m.nindirect λ e. ground (arith, e, there)).1 in
      ap
        (λ b.
          if ltb k 15
          then get_or sv.sv_i.sfi_direct k 0
          else if sv.sv_i.sfi_indirect == 0
          then 0
          else get_or (words_of b) (k - 15) 0)
        same
]

-- The invariant only depends on the map and on what is in use.
pub Mapped-change : (s s' : Sfs) (sv : SfsVnode) → Mapped s sv → Extends s s' → Mapped s' sv
Mapped-change s s' sv m x =
    let same : (k : ℕ) → block_of s' sv k ≡ block_of s sv k = λ k. block_of-Extends s s' sv k m x in
    record {
      fs = x.valid;
      ndirect = m.ndirect;
      nindirect = λ there.
          let (lt, used, len) = m.nindirect there in
          (
            omega (arith, lt, x.same_nblocks),
            x.keeps_used sv.sv_i.sfi_indirect used,
            ap (λ b. length (words_of b)) (x.keeps_data sv.sv_i.sfi_indirect used) ∙ len,
          );
      used = λ k lt ne.
          let (small, marked) = m.used k lt λ e. ne (same k ∙ e) in
          (
            omega (arith, small, same k, x.same_nblocks),
            subst (λ b. in_use s' b ≡ true) (sym (same k)) (x.keeps_used (block_of s sv k) marked),
          );
      apart = λ j k lj lk ne e. same j ∙ m.apart j k lj lk ne (sym (same j) ∙ e ∙ same k);
      apart_indirect = λ k lt e. same k ∙ m.apart_indirect k lt (sym (same k) ∙ e);
    }

-- One block of the file is new: it was free, and is in use now.
pub Mapped-new :
    (s s' : Sfs) (sv sv' : SfsVnode) (k b : ℕ)
    → Mapped s sv
    → FsValid s'
    → s'.sp_nblocks ≡ s.sp_nblocks
    → ((i : ℕ) → in_use s i ≡ true → in_use s' i ≡ true)
    → b < s.sp_nblocks
    → 0 < b
    → in_use s b ≡ false
    → in_use s' b ≡ true
    → length sv'.sv_i.sfi_direct ≡ 15
    → sv'.sv_i.sfi_indirect ≡ sv.sv_i.sfi_indirect
    → (sv'.sv_i.sfi_indirect ≢ 0 → length (words_of (s'.blocks sv'.sv_i.sfi_indirect)) ≡ 128)
    → ((j : ℕ) → j < 143 → block_of s' sv' j ≡ (if k == j then b else block_of s sv j))
    → Mapped s' sv'
Mapped-new s s' sv sv' k b m v same_n mono lt pos free marked len same_i len_i map =
    -- No block of the file was b.
    let fresh : (j : ℕ) → j < 143 → block_of s sv j ≢ b = λ j lj e.
      let u = (m.used j lj λ z. absurd (omega (arith, z, e, pos))).1 in
      ground (arith, ap (in_use s) e, u, free) in
    let fresh_i : sv.sv_i.sfi_indirect ≢ b = λ e.
      let u = (m.nindirect λ z. absurd (omega (arith, z, e, pos))).1 in
      ground (arith, ap (in_use s) e, u, free) in
    let here : (j : ℕ) → j < 143 → k ≡ j → block_of s' sv' j ≡ b =
      λ j lj e. map j lj ∙ ground (arith, e) in
    let there : (j : ℕ) → j < 143 → k ≢ j → block_of s' sv' j ≡ block_of s sv j =
      λ j lj ne. map j lj ∙ if_ne k j b (block_of s sv j) ne in
    record {
      fs = v;
      ndirect = len;
      nindirect = λ ne.
          let (small, used, l) = m.nindirect λ z. ne (same_i ∙ z) in
          (
            omega (arith, small, same_n, same_i),
            subst (λ i. in_use s' i ≡ true) (sym same_i) (mono sv.sv_i.sfi_indirect used),
            len_i ne,
          );
      used = λ j lj ne. elim (ℕ_discrete k j) [
        | yes e ↦ (
          omega (arith, here j lj e, lt, same_n),
          subst (λ i. in_use s' i ≡ true) (sym (here j lj e)) marked,
        )
        | no other ↦
            let (small, used) = m.used j lj λ z. ne (there j lj other ∙ z) in
            (
              omega (arith, there j lj other, small, same_n),
              subst (λ i. in_use s' i ≡ true) (sym (there j lj other))
                  (mono (block_of s sv j) used),
            )
      ];
      apart = λ i j li lj ne e. elim (ℕ_discrete k i) [
        | yes ei ↦
            absurd (fresh j lj (sym (there j lj λ ej. ne (sym ei ∙ ej)) ∙ sym e ∙ here i li ei))
        | no oi ↦ elim (ℕ_discrete k j) [
          | yes ej ↦ absurd (fresh i li (sym (there i li oi) ∙ e ∙ here j lj ej))
          | no oj ↦ there i li oi ∙ m.apart i j li lj ne (sym (there i li oi) ∙ e ∙ there j lj oj)
        ]
      ];
      apart_indirect = λ j lj e. elim (ℕ_discrete k j) [
        | yes ej ↦ absurd (fresh_i (sym same_i ∙ sym e ∙ here j lj ej))
        | no oj ↦ there j lj oj ∙ m.apart_indirect j lj (sym (there j lj oj) ∙ e ∙ same_i)
      ];
    }
