-- ===== src/Sfs/ReadPast.antt =====
-- os161/kern/fs/sfs/sfs_vnode.c: a read of sfs_io that goes past the largest file ends in EINVAL of
-- sfs_bmap, if nothing else fails first.
use azurespider.Prelude.{
  ℕ, zero, suc, ◌+◌, ◌-◌, ◌*◌, ◌/◌, ◌%◌, ◌≤◌, ◌<◌, ◌≡◌, ◌≢◌, refl, ap, ◌∙◌, ◌⊎◌, inl, inr, true,
  false, not, ltb, ◌==◌, if◌then◌else◌, ℕ_discrete, dec_lt, arith, Run, ok, none, some,
}
use azurespider.Errno.{Errno, einval, Code}
use azurespider.Uio.Copy.{UserMemory}
use azurespider.Uio.{Uio, is_write}
use azurespider.Uio.Span.{span}
use azurespider.Uio.Move.{Ready, Ready-Passed}
use azurespider.Sfs.{Device, Sfs, SfsVnode}
use azurespider.Sfs.Blocks.{Accepts, IsSized}
use azurespider.Sfs.Mapping.{Mapped}
use azurespider.Sfs.Look.{byte_at}
use azurespider.Sfs.Bmap.{bmap_past}
use azurespider.Sfs.Io.{partialio, blocks_loop, io_blocks, io_body}
use azurespider.Sfs.ReadBlock.{read_partial, read_block, blockio_fails, leb-true}

-- A transfer fails, and only the count of d_io changes.
abbrev pub Fails : SfsVnode → Sfs → Run (Code × SfsVnode × Uio × Sfs) → Type 0
Fails sv s run =
    (e : Errno) × (u' : Uio) × (c : ℕ) × (run ≡ ok (some e, sv, u', record s { ios = c }))
    × (is_write u'.uio_rw ≡ false)

module _ (dev : Device) (mem : UserMemory) (vmspace : ℕ) (sv : SfsVnode) (s : Sfs)
    (takes : Accepts dev s.sp_nblocks) (m : Mapped s sv) (sized : IsSized s) where
  abbrev at : ℕ → Sfs
  at c = record s { ios = c }

  partial_past :
      (skip n c : ℕ) (u : Uio)
      → is_write u.uio_rw ≡ false
      → skip + n ≤ 512
      → 73216 ≤ u.uio_offset
      → partialio dev mem vmspace skip n sv u (at c) ≡ ok (some einval, sv, u, at c)
  unfolding partialio
  partial_past skip n c u rd le past =
      let far = bmap_past dev (u.uio_offset / 512) false sv (at c) (omega (arith, past)) in
      let room = leb-true (skip + n) 512 le in rw (room, rd, far) refl

  blocks_past :
      (n c : ℕ) (u : Uio)
      → Ready vmspace u
      → is_write u.uio_rw ≡ false
      → 0 < n
      → n * 512 ≤ u.uio_resid
      → u.uio_offset % 512 ≡ 0
      → 73216 < u.uio_offset + n * 512
      → Fails sv s (blocks_loop dev mem vmspace n sv u (at c))
  unfolding blocks_loop
  blocks_past zero c u r rd pos le aligned past = absurd (omega (arith, pos))
  blocks_past (suc n) c u r rd pos le aligned past = elim (dec_lt u.uio_offset 73216) [
    | no far ↦
        let miss = bmap_past dev (u.uio_offset / 512) false sv (at c) (omega (arith, far)) in
        let stop =
          blockio_fails dev mem vmspace sv s takes m sized u (at c) (at c) einval rd miss in
        (einval, u, c, rw stop refl, rd)
    | yes near ↦
        elim (read_block dev mem vmspace sv s takes m sized c u r rd (omega (arith, le)) aligned
          near) [
            | inl (e, u', c1, x, w) ↦ (e, u', c1, rw x refl, w)
            | inr (u1, c1, x, p) ↦
                let (e, u', c2, y, w) =
                  blocks_past n c1 u1
                    (Ready-Passed vmspace u u1 512 (span (byte_at s sv) u.uio_offset 512) r p)
                    (ap is_write p.same_rw ∙ rd) (omega (arith, near, aligned, past))
                    (omega (arith, le, p.resid)) (omega (arith, p.offset, aligned))
                    (omega (arith, p.offset, past)) in
                (e, u', c2, rw x y, w)
          ]
  ]

  rest_past :
      (c : ℕ) (u : Uio)
      → Ready vmspace u
      → is_write u.uio_rw ≡ false
      → u.uio_offset % 512 ≡ 0
      → 0 < u.uio_resid
      → 80000 ≤ u.uio_offset + u.uio_resid
      → Fails sv s (io_blocks dev mem vmspace sv u (at c))
  unfolding io_blocks blocks_loop
  rest_past c u r rd aligned live past =
      let even : (u.uio_offset % 512 == 0) ≡ true = ground (arith, aligned) in
      elim (dec_lt u.uio_resid 512) [
        | no full ↦
            let (e, u', c1, x, w) =
              blocks_past (u.uio_resid / 512) c u r rd (omega (arith, full)) (omega arith) aligned
                (omega (arith, past)) in
            (e, u', c1, rw (even, x) refl, w)
        | yes left ↦
            let none_ : u.uio_resid / 512 ≡ 0 = omega (arith, left) in
            let short : ltb u.uio_resid 512 ≡ true = ground (arith, left) in
            let more : ltb 0 u.uio_resid ≡ true = ground (arith, live) in
            let x =
              partial_past 0 u.uio_resid c u rd (omega (arith, left)) (omega (arith, past, left)) in
            (einval, u, c, rw (even, none_, short, more) x, rd)
      ]

  -- sfs_io from the leading partial block on, with nothing to move.
  pub body_nothing :
      (u : Uio)
      → is_write u.uio_rw ≡ false
      → u.uio_resid ≡ 0
      → 73216 ≤ u.uio_offset
      → Fails sv s (io_body dev mem vmspace sv u s)
        ⊎ (io_body dev mem vmspace sv u s ≡ ok (none, sv, u, s))
  unfolding io_body
  body_nothing u rd nothing far = elim (ℕ_discrete (u.uio_offset % 512) 0) [
    | yes aligned ↦
        let even : not (u.uio_offset % 512 == 0) ≡ false = ground (arith, aligned) in
        let over : (u.uio_resid == 0) ≡ true = ground (arith, nothing) in inr (rw (even, over) refl)
    | no odd ↦
        let even : not (u.uio_offset % 512 == 0) ≡ true = ground (arith, odd) in
        let o = u.uio_offset % 512 in
        let len = if ltb u.uio_resid (512 - o) then u.uio_resid else 512 - o in
        let fits : o + len ≤ 512 = ground arith in
        let x = partial_past o len s.ios u rd fits far in
        inl (einval, u, s.ios, rw (even, x) refl, rd)
  ]

  -- The same for a transfer that ends past the largest file.
  pub body_past :
      (u : Uio)
      → Ready vmspace u
      → is_write u.uio_rw ≡ false
      → 0 < u.uio_resid
      → 80000 ≤ u.uio_offset + u.uio_resid
      → Fails sv s (io_body dev mem vmspace sv u s)
  unfolding io_body
  body_past u r rd live past = elim (ℕ_discrete (u.uio_offset % 512) 0) [
    | yes aligned ↦
        let even : not (u.uio_offset % 512 == 0) ≡ false = ground (arith, aligned) in
        let go : (u.uio_resid == 0) ≡ false = ground (arith, live) in
        let (e, u', c, x, w) = rest_past s.ios u r rd aligned live past in
        (e, u', c, rw (even, go) x, w)
    | no odd ↦
        let even : not (u.uio_offset % 512 == 0) ≡ true = ground (arith, odd) in
        let o = u.uio_offset % 512 in
        let len = if ltb u.uio_resid (512 - o) then u.uio_resid else 512 - o in
        let some_ : len ≤ u.uio_resid = ground arith in
        let fits : o + len ≤ 512 = ground arith in
        let filled : u.uio_resid ≢ len → o + len ≡ 512 = ground arith in
        elim (dec_lt u.uio_offset 73216) [
          | no far ↦
              let x = partial_past o len s.ios u rd fits (omega (arith, far)) in
              (einval, u, s.ios, rw (even, x) refl, rd)
          | yes near ↦
              elim (read_partial dev mem vmspace sv s takes m sized len s.ios u r rd some_ fits
                near) [
                  | inl (e, u', c, x, w) ↦ (e, u', c, rw (even, x) refl, w)
                  | inr (u1, c, x, p) ↦
                      let more : 0 < u1.uio_resid =
                        omega (arith, p.offset, p.resid, past, near, fits) in
                      let go : (u1.uio_resid == 0) ≡ false = ground (arith, more) in
                      let flat : u1.uio_offset % 512 ≡ 0 =
                        omega
                          (arith, p.offset, filled λ z. absurd (omega (arith, p.resid, z, more))) in
                      let (e, u', c1, y, w) =
                        rest_past c u1
                          (Ready-Passed vmspace u u1 len (span (byte_at s sv) u.uio_offset len) r p)
                          (ap is_write p.same_rw ∙ rd) flat more
                          (omega (arith, p.offset, p.resid, past)) in
                      (e, u', c1, rw (even, x, go) y, w)
                ]
        ]
  ]
