-- ===== src/Sfs/ReadBlock.antt =====
-- os161/kern/fs/sfs/sfs_vnode.c: reading a block of a file, or a part of one.
use azurespider.Prelude.{
  Option-cases, ℕ, ◌+◌, ◌-◌, ◌*◌, ◌/◌, ◌%◌, ◌^◌, ◌≤◌, ◌<◌, ◌≡◌, ◌≢◌, refl, sym, ap, subst, ◌∙◌, ◌⊎◌,
  inl, inr, true, false, List, [], ◌++◌, leb, ◌==◌, if◌then◌else◌, get_or, ℕ_discrete, arith, Run,
  ok, none, some, take, drop, length, replicate, length-replicate,
}
use azurespider.Uio.Copy.{UserMemory}
use azurespider.Errno.{Errno, Code, err, got}
use azurespider.Uio.{uiomovezeros, Uio, is_write, advance, interrupted}
use azurespider.Uio.Span.{span, span_same, span_join, take-drop-span}
use azurespider.Uio.Move.{received_lem, Ready, Passed, then-Passed, uiomove_lem, uiomovezeros_lem}
use azurespider.Sfs.{Device, Sfs, SfsVnode, bmap}
use azurespider.Sfs.Words.{get_or-zeros}
use azurespider.Sfs.Blocks.{Accepts, IsSized, counted, rblock_lem, rwblock-read}
use azurespider.Sfs.Mapping.{block_of, Mapped, Mapped-change}
use azurespider.Sfs.Look.{byte_at, look_lem}
use azurespider.Sfs.Io.{
  with_span, stopped, stopped-same_rw, partial_move, partial_load, partialio, rwblock_uio,
  block_transfer, blockio,
}

-- The bytes of one block of the file.
block_bytes :
    (s : Sfs) (sv : SfsVnode) (off n : ℕ) (bytes : List ℕ)
    → off % 512 + n ≤ 512
    → length bytes ≡ 512
    → ((k : ℕ)
        → get_or bytes k 0 ≡ (
            if block_of s sv (off / 512) == 0
            then 0
            else get_or (s.blocks (block_of s sv (off / 512))) k 0))
    → take n (drop (off % 512) bytes) ≡ span (byte_at s sv) off n
block_bytes s sv off n bytes le len same =
    take-drop-span bytes (off % 512) n (omega (arith, le, len))
    ∙ span_same (λ k. get_or bytes k 0) (byte_at s sv) (off % 512) off n
        λ k lt.
          let q : (off + k) / 512 ≡ off / 512 = omega (arith, lt, le) in
          let r : (off + k) % 512 ≡ off % 512 + k = omega (arith, lt, le) in
          same (off % 512 + k)
          ∙ ap
              (λ b.
                if block_of s sv b == 0
                then 0
                else get_or (s.blocks (block_of s sv b)) (off % 512 + k) 0)
              (sym q)
          ∙ ap
              (λ c.
                if block_of s sv ((off + k) / 512) == 0
                then 0
                else get_or (s.blocks (block_of s sv ((off + k) / 512))) c 0)
              (sym r)

pub leb-true : (m n : ℕ) → m ≤ n → leb m n ≡ true
leb-true m n h = ground (arith, h)

-- The uio after a block is transferred, and after the transfer failed.
abbrev pub landed : Uio → ℕ → List ℕ → Uio
landed u diskoff bytes =
    let u1 = advance 512 bytes (with_span u diskoff 512) in
    with_span u1 (u1.uio_offset - diskoff + u.uio_offset)
      ((u1.uio_resid + 2 ^ 32 - 512 + u.uio_resid) % 2 ^ 32)

abbrev pub returned : Uio → ℕ → ℕ → List ℕ → Uio
returned u diskoff moved bytes =
    let u1 = stopped moved bytes (with_span u diskoff 512) in
    with_span u1 (u1.uio_offset - diskoff + u.uio_offset)
      ((u1.uio_resid + 2 ^ 32 - 512 + u.uio_resid) % 2 ^ 32)

pub returned-same_rw :
    (u : Uio) (diskoff moved : ℕ) (bytes : List ℕ)
    → (returned u diskoff moved bytes).uio_rw ≡ u.uio_rw
returned-same_rw u diskoff moved bytes = stopped-same_rw moved bytes (with_span u diskoff 512)

pub landed-Passed :
    (u : Uio) (diskoff : ℕ) (bytes : List ℕ)
    → u.uio_resid < 2 ^ 32
    → 512 ≤ u.uio_resid
    → Passed u (landed u diskoff bytes) 512 (if is_write u.uio_rw then [] else take 512 bytes)
landed-Passed u diskoff bytes lt le = record {
  moved = received_lem u.uio_rw 512 bytes u.moved;
  iov = refl;
  offset = omega arith;
  resid = omega (arith, lt, le);
  same_rw = refl;
  same_segflg = refl;
  same_space = refl;
}

module _ (dev : Device) (mem : UserMemory) (vmspace : ℕ) (sv : SfsVnode) (s : Sfs)
    (takes : Accepts dev s.sp_nblocks) (m : Mapped s sv) (sized : IsSized s) where
  abbrev pub at_io : ℕ → Sfs
  at_io c = record s { ios = c }

  -- A transfer reads n bytes of the file, or fails; only the count of d_io changes.
  abbrev pub Reads : Uio → ℕ → Run (Code × SfsVnode × Uio × Sfs) → Type 0
  Reads u n run =
      ((e : Errno) × (u' : Uio) × (c : ℕ) × (run ≡ ok (some e, sv, u', at_io c))
        × (is_write u'.uio_rw ≡ false))
      ⊎ ((u' : Uio) × (c : ℕ) × (run ≡ ok (none, sv, u', at_io c))
          × Passed u u' n (span (byte_at s sv) u.uio_offset n))

  pub at_io-Mapped : (c : ℕ) → Mapped (at_io c) sv
  at_io-Mapped c = Mapped-change s (at_io c) sv m (counted s c m.fs)

  pub join :
      (u v w : Uio) (n k t : ℕ)
      → Passed u v n (span (byte_at s sv) u.uio_offset n)
      → Passed v w k (span (byte_at s sv) v.uio_offset k)
      → n + k ≡ t
      → Passed u w t (span (byte_at s sv) u.uio_offset t)
  join u v w n k t p q e =
      subst (λ x. Passed u w x (span (byte_at s sv) u.uio_offset x)) e
        (subst (Passed u w (n + k))
          (ap (λ o. span (byte_at s sv) u.uio_offset n ++ span (byte_at s sv) o k) p.offset
            ∙ sym (span_join (byte_at s sv) u.uio_offset n k))
          (then-Passed p q))

  read_move :
      (skip n : ℕ) (bytes : List ℕ) (b c : ℕ) (u : Uio)
      → Ready vmspace u
      → is_write u.uio_rw ≡ false
      → n ≤ u.uio_resid
      → take n (drop skip bytes) ≡ span (byte_at s sv) u.uio_offset n
      → Reads u n (partial_move dev mem vmspace skip n bytes b sv u (at_io c))
  unfolding partial_move
  read_move skip n bytes b c u r rd le same =
      elim (uiomove_lem mem vmspace (drop skip bytes) n u r le) [
        | inl (e, k1, k, short_, user) ↦
            inl (e, interrupted k1 (drop skip bytes) u, c, ground (arith, k), rd)
        | inr (u', k, p) ↦ inr (
          u',
          c,
          ground (arith, k, rd),
          subst (Passed u u' n) (ap (λ w. if w then [] else take n (drop skip bytes)) rd ∙ same) p,
        )
      ]

  pub read_partial :
      (n c : ℕ) (u : Uio)
      → Ready vmspace u
      → is_write u.uio_rw ≡ false
      → n ≤ u.uio_resid
      → u.uio_offset % 512 + n ≤ 512
      → u.uio_offset < 73216
      → Reads u n (partialio dev mem vmspace (u.uio_offset % 512) n sv u (at_io c))
  unfolding partialio partial_load
  read_partial n c u r rd le fits lt =
      let k = u.uio_offset / 512 in
      let b = block_of s sv k in
      let inside : k < 143 = omega (arith, lt) in
      elim (look_lem dev k sv (at_io c) takes (at_io-Mapped c) inside) [
        | inl (e, c1, l) ↦ inl (e, u, c1, ground (arith, fits, rd, l), rd)
        | inr (c1, l) ↦ elim (ℕ_discrete b 0) [
          | yes hole ↦
              let zeros : (j : ℕ)
                  → get_or {A = ℕ} (replicate 512 0) j 0
                    ≡ (if b == 0 then 0 else get_or (s.blocks b) j 0) =
                λ j. get_or-zeros 512 j ∙ ground (arith, hole) in
              let run : partialio dev mem vmspace (u.uio_offset % 512) n sv u (at_io c)
                  ≡ partial_move dev mem vmspace (u.uio_offset % 512) n (replicate 512 0) b sv u
                      (at_io c1) =
                ground (arith, fits, rd, l, hole) in
              subst (Reads u n) (sym run) (
                read_move (u.uio_offset % 512) n (replicate 512 0) b c1 u r rd le (
                  block_bytes s sv u.uio_offset n (replicate 512 0) fits
                    (length-replicate {A = ℕ} 512 0) zeros))
          | no there ↦ elim (rblock_lem dev (at_io c1) takes b (m.used k inside there).0) [
            | inl (e, c2, x) ↦ inl (e, u, c2, ground (arith, fits, rd, l, there, x), rd)
            | inr (c2, x) ↦
                let run : partialio dev mem vmspace (u.uio_offset % 512) n sv u (at_io c)
                    ≡ partial_move dev mem vmspace (u.uio_offset % 512) n (s.blocks b) b sv u
                        (at_io c2) =
                  ground (arith, fits, rd, l, there, x) in
                subst (Reads u n) (sym run) (
                  read_move (u.uio_offset % 512) n (s.blocks b) b c2 u r rd le (
                    block_bytes s sv u.uio_offset n (s.blocks b) fits (sized b)
                      λ j. ground (arith, there)))
          ]
        ]
      ]

  -- The transfer between a uio and a block that is there.
  read_device :
      (c : ℕ) (u : Uio)
      → Ready vmspace u
      → is_write u.uio_rw ≡ false
      → 512 ≤ u.uio_resid
      → (b : ℕ) → b < s.sp_nblocks
      → take 512 (s.blocks b) ≡ span (byte_at s sv) u.uio_offset 512
      → Reads u 512 (block_transfer dev mem vmspace b sv u (at_io c))
  unfolding block_transfer rwblock_uio
  read_device c u r rd le b lb bytes =
      let (result, left, c1, x, z) = rwblock-read dev b (at_io c) takes lb in
      let wide : leb 512 u.uio_resid ≡ true = leb-true 512 u.uio_resid le in
      elim (Option-cases result) [
        | inl done ↦ inr (
          landed u (b * 512 % 2 ^ 32) (s.blocks b),
          c1,
          rw (wide, rd, x ∙ ap (λ q. ok (q, left, at_io c1)) done, rd) refl,
          subst (Passed u (landed u (b * 512 % 2 ^ 32) (s.blocks b)) 512)
              (ap (λ w. if w then [] else take 512 (s.blocks b)) rd ∙ bytes)
              (landed-Passed u (b * 512 % 2 ^ 32) (s.blocks b) r.small le),
        )
        | inr (e, failed) ↦ inl (
          e,
          returned u (b * 512 % 2 ^ 32) left (s.blocks b),
          c1,
          rw (wide, rd, x ∙ ap (λ q. ok (q, left, at_io c1)) failed) refl,
          ap is_write (returned-same_rw u (b * 512 % 2 ^ 32) left (s.blocks b)) ∙ rd,
        )
      ]

  -- sfs_blockio by its cases.
  pub blockio_fails :
      (u : Uio) (s0 s1 : Sfs) (e : Errno)
      → is_write u.uio_rw ≡ false
      → bmap dev (u.uio_offset / 512) false sv s0 ≡ ok (err e, sv, s1)
      → blockio dev mem vmspace sv u s0 ≡ ok (some e, sv, u, s1)
  unfolding blockio
  blockio_fails u s0 s1 e rd l = rw (rd, l) refl

  blockio_hole :
      (u u' : Uio) (s0 s1 : Sfs) (result : Code)
      → is_write u.uio_rw ≡ false
      → bmap dev (u.uio_offset / 512) false sv s0 ≡ ok (got 0, sv, s1)
      → uiomovezeros mem vmspace 512 u ≡ ok (result, u')
      → blockio dev mem vmspace sv u s0 ≡ ok (result, sv, u', s1)
  unfolding blockio
  blockio_hole u u' s0 s1 result rd l z = rw (rd, l, rd, z) refl

  blockio_there :
      (u : Uio) (s0 s1 : Sfs) (b : ℕ)
      → is_write u.uio_rw ≡ false
      → bmap dev (u.uio_offset / 512) false sv s0 ≡ ok (got b, sv, s1)
      → b ≢ 0
      → blockio dev mem vmspace sv u s0 ≡ block_transfer dev mem vmspace b sv u s1
  unfolding blockio
  blockio_there u s0 s1 b rd l ne = rw (rd, l) (ground (arith, ne))

  pub read_block :
      (c : ℕ) (u : Uio)
      → Ready vmspace u
      → is_write u.uio_rw ≡ false
      → 512 ≤ u.uio_resid
      → u.uio_offset % 512 ≡ 0
      → u.uio_offset < 73216
      → Reads u 512 (blockio dev mem vmspace sv u (at_io c))
  read_block c u r rd le aligned lt =
      let k = u.uio_offset / 512 in
      let b = block_of s sv k in
      let inside : k < 143 = omega (arith, lt) in
      let fits : u.uio_offset % 512 + 512 ≤ 512 = omega (arith, aligned) in
      elim (look_lem dev k sv (at_io c) takes (at_io-Mapped c) inside) [
        | inl (e, c1, l) ↦ inl (e, u, c1, blockio_fails u (at_io c) (at_io c1) e rd l, rd)
        | inr (c1, l) ↦ elim (ℕ_discrete b 0) [
          | yes hole ↦
              let l0 : bmap dev k false sv (at_io c) ≡ ok (got 0, sv, at_io c1) =
                l ∙ ap (λ x. ok (got x, sv, at_io c1)) hole in
              let bytes : replicate {A = ℕ} 512 0 ≡ span (byte_at s sv) u.uio_offset 512 =
                ap (λ o. take 512 (drop o (replicate {A = ℕ} 512 0))) (sym aligned)
                ∙ block_bytes s sv u.uio_offset 512 (replicate 512 0) fits
                    (length-replicate {A = ℕ} 512 0)
                    (λ j. get_or-zeros 512 j ∙ ground (arith, hole)) in
              elim (uiomovezeros_lem mem vmspace 512 u r le rd) [
                | inl (e, u', z, user, w) ↦ inl (
                  e,
                  u',
                  c1,
                  blockio_hole u u' (at_io c) (at_io c1) (some e) rd l0 z,
                  ap is_write w ∙ rd,
                )
                | inr (u', z, p) ↦ inr (
                  u',
                  c1,
                  blockio_hole u u' (at_io c) (at_io c1) none rd l0 z,
                  subst (Passed u u' 512) bytes p,
                )
              ]
          | no there ↦
              let bytes : take 512 (s.blocks b) ≡ span (byte_at s sv) u.uio_offset 512 =
                ap (λ o. take 512 (drop o (s.blocks b))) (sym aligned)
                ∙ block_bytes s sv u.uio_offset 512 (s.blocks b) fits (sized b)
                    (λ j. ground (arith, there)) in
              subst (Reads u 512) (sym (blockio_there u (at_io c) (at_io c1) b rd l there))
                (read_device c1 u r rd le b (m.used k inside there).0 bytes)
        ]
      ]
