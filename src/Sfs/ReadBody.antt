-- ===== src/Sfs/ReadBody.antt =====
-- os161/kern/fs/sfs/sfs_vnode.c: reading with sfs_io what a file can have, from its leading partial
-- block on.
use azurespider.Prelude.{
  ℕ, zero, suc, ◌+◌, ◌-◌, ◌*◌, ◌/◌, ◌%◌, ◌≤◌, ◌<◌, ◌≡◌, ◌≢◌, refl, sym, ap, subst, ◌∙◌, inl, inr,
  true, false, not, ltb, ◌==◌, if◌then◌else◌, ℕ_discrete, arith, Run, ok, none,
}
use azurespider.Uio.Copy.{UserMemory}
use azurespider.Errno.{Code}
use azurespider.Uio.{Uio, is_write}
use azurespider.Uio.Span.{span}
use azurespider.Uio.Move.{Ready, Passed, Passed-refl, Ready-Passed}
use azurespider.Sfs.{Device, Sfs, SfsVnode}
use azurespider.Sfs.Blocks.{Accepts, IsSized}
use azurespider.Sfs.Mapping.{Mapped}
use azurespider.Sfs.Look.{byte_at}
use azurespider.Sfs.Io.{partialio, blocks_loop, io_blocks, io_body}
use azurespider.Sfs.ReadBlock.{Reads, at_io, join, read_partial, read_block}

module _ (dev : Device) (mem : UserMemory) (vmspace : ℕ) (sv : SfsVnode) (s : Sfs)
    (takes : Accepts dev s.sp_nblocks) (m : Mapped s sv) (sized : IsSized s) where
  read_blocks :
      (nblocks c : ℕ) (u : Uio)
      → Ready vmspace u
      → is_write u.uio_rw ≡ false
      → nblocks * 512 ≤ u.uio_resid
      → u.uio_offset % 512 ≡ 0
      → u.uio_offset + nblocks * 512 ≤ 73216
      → Reads dev mem vmspace sv s takes m sized u
          (nblocks * 512)
          (blocks_loop dev mem vmspace nblocks sv u (at_io dev mem vmspace sv s takes m sized c))
  unfolding blocks_loop
  read_blocks zero c u r rd le aligned lt = inr (u, c, refl, Passed-refl u)
  read_blocks (suc n) c u r rd le aligned lt =
      elim (read_block dev mem vmspace sv s takes m sized c u r rd (omega (arith, le)) aligned
        (omega (arith, lt))) [
          | inl (e, u', c1, x, w) ↦ inl (e, u', c1, rw x refl, w)
          | inr (u1, c1, x, p) ↦
              elim (read_blocks n c1 u1
                (Ready-Passed vmspace u u1 512 (span (byte_at s sv) u.uio_offset 512) r p)
                (ap is_write p.same_rw ∙ rd) (omega (arith, le, p.resid))
                (omega (arith, p.offset, aligned)) (omega (arith, p.offset, lt))) [
                  | inl (e, u', c2, y, w) ↦ inl (e, u', c2, rw x y, w)
                  | inr (u', c2, y, q) ↦ inr (
                    u',
                    c2,
                    rw x y,
                    join dev mem vmspace sv s takes m sized u u1 u' 512 (n * 512) (suc n * 512) p q
                        (omega arith),
                  )
                ]
        ]

  read_rest :
      (c : ℕ) (u : Uio)
      → Ready vmspace u
      → is_write u.uio_rw ≡ false
      → u.uio_offset % 512 ≡ 0
      → u.uio_offset + u.uio_resid ≤ 73216
      → 0 < u.uio_resid
      → Reads dev mem vmspace sv s takes m sized u u.uio_resid
          (io_blocks dev mem vmspace sv u (at_io dev mem vmspace sv s takes m sized c))
  unfolding io_blocks
  read_rest c u r rd aligned lt live =
      let n = u.uio_resid / 512 in
      let whole : n * 512 ≤ u.uio_resid = omega arith in
      let even : (u.uio_offset % 512 == 0) ≡ true = ground (arith, aligned) in
      elim (read_blocks n c u r rd whole aligned (omega (arith, whole, lt))) [
        | inl (e, u', c1, x, w) ↦ inl (e, u', c1, rw (even, x) refl, w)
        | inr (u1, c1, x, p) ↦
            let left : u1.uio_resid < 512 = omega (arith, p.resid) in
            let short : ltb u1.uio_resid 512 ≡ true = ground (arith, left) in
            elim (ℕ_discrete u1.uio_resid 0) [
              | yes done ↦
                  let over : ltb 0 u1.uio_resid ≡ false = ground (arith, done) in
                  inr (
                    u1,
                    c1,
                    rw (even, x, short, over) refl,
                    subst (λ t. Passed u u1 t (span (byte_at s sv) u.uio_offset t)) {x = n * 512}
                        (omega (arith, p.resid, done)) p,
                  )
              | no more ↦
                  let again : ltb 0 u1.uio_resid ≡ true = ground (arith, more) in
                  let flat : u1.uio_offset % 512 ≡ 0 = omega (arith, p.offset, aligned) in
                  let tail : Reads dev mem vmspace sv s takes m sized u1 u1.uio_resid (
                      partialio dev mem vmspace 0 u1.uio_resid sv u1
                        (at_io dev mem vmspace sv s takes m sized c1)) =
                    subst
                      (λ o. Reads dev mem vmspace sv s takes m sized u1 u1.uio_resid (
                        partialio dev mem vmspace o u1.uio_resid sv u1
                          (at_io dev mem vmspace sv s takes m sized c1)))
                      flat
                      (read_partial dev mem vmspace sv s takes m sized u1.uio_resid c1 u1
                        (Ready-Passed vmspace u u1 (n * 512)
                          (span (byte_at s sv) u.uio_offset (n * 512)) r p)
                        (ap is_write p.same_rw ∙ rd) (omega arith) (omega (arith, flat, left))
                        (omega (arith, p.offset, p.resid, lt, more))) in
                  elim tail [
                    | inl (e, u', c2, y, w) ↦ inl (e, u', c2, rw (even, x, short, again) y, w)
                    | inr (u', c2, y, q) ↦ inr (
                      u',
                      c2,
                      rw (even, x, short, again) y,
                      join dev mem vmspace sv s takes m sized u u1 u' (n * 512) u1.uio_resid
                          u.uio_resid p q (omega (arith, p.resid)),
                    )
                  ]
            ]
      ]

  abbrev rest : Uio → Sfs → Run (Code × SfsVnode × Uio × Sfs)
  rest u t = if u.uio_resid == 0 then ok (none, sv, u, t) else io_blocks dev mem vmspace sv u t

  read_cont :
      (c : ℕ) (u : Uio)
      → Ready vmspace u
      → is_write u.uio_rw ≡ false
      → (u.uio_resid ≢ 0 → u.uio_offset % 512 ≡ 0)
      → u.uio_offset + u.uio_resid ≤ 73216
      → Reads dev mem vmspace sv s takes m sized u u.uio_resid
          (rest u (at_io dev mem vmspace sv s takes m sized c))
  read_cont c u r rd aligned lt = elim (ℕ_discrete u.uio_resid 0) [
    | yes done ↦ inr (
      u,
      c,
      ap
          (λ n.
            if n == 0
            then ok (none, sv, u, at_io dev mem vmspace sv s takes m sized c)
            else io_blocks dev mem vmspace sv u (at_io dev mem vmspace sv s takes m sized c))
          done,
      subst (λ n. Passed u u n (span (byte_at s sv) u.uio_offset n)) (sym done) (Passed-refl u),
    )
    | no more ↦
        let go : (u.uio_resid == 0) ≡ false = ground (arith, more) in
        subst (Reads dev mem vmspace sv s takes m sized u u.uio_resid)
          (sym (
            ap
              (λ b.
                if b
                then ok (none, sv, u, at_io dev mem vmspace sv s takes m sized c)
                else io_blocks dev mem vmspace sv u (at_io dev mem vmspace sv s takes m sized c))
              go))
          (read_rest c u r rd (aligned more) lt (omega (arith, more)))
  ]

  pub read_body :
      (u : Uio)
      → Ready vmspace u
      → is_write u.uio_rw ≡ false
      → u.uio_offset + u.uio_resid ≤ 73216
      → u.uio_offset < 73216
      → Reads dev mem vmspace sv s takes m sized u u.uio_resid (io_body dev mem vmspace sv u s)
  unfolding io_body
  read_body u r rd lt lo = elim (ℕ_discrete (u.uio_offset % 512) 0) [
    | yes aligned ↦
        let even : not (u.uio_offset % 512 == 0) ≡ false = ground (arith, aligned) in
        subst (Reads dev mem vmspace sv s takes m sized u u.uio_resid) (sym (rw even refl))
          (read_cont s.ios u r rd (λ z. aligned) lt)
    | no odd ↦
        let even : not (u.uio_offset % 512 == 0) ≡ true = ground (arith, odd) in
        let o = u.uio_offset % 512 in
        let len = if ltb u.uio_resid (512 - o) then u.uio_resid else 512 - o in
        let some_ : len ≤ u.uio_resid = ground arith in
        let fits : o + len ≤ 512 = ground arith in
        let filled : u.uio_resid ≢ len → o + len ≡ 512 = ground arith in
        elim (read_partial dev mem vmspace sv s takes m sized len s.ios u r rd some_ fits lo) [
          | inl (e, u', c, x, w) ↦ inl (e, u', c, rw (even, x) refl, w)
          | inr (u1, c, x, p) ↦
              elim (read_cont c u1
                (Ready-Passed vmspace u u1 len (span (byte_at s sv) u.uio_offset len) r p)
                (ap is_write p.same_rw ∙ rd)
                (λ more. omega (arith, p.offset, filled λ z. more (omega (arith, p.resid, z))))
                (omega (arith, p.offset, p.resid, lt, some_))) [
                  | inl (e, u', c1, y, w) ↦ inl (e, u', c1, rw (even, x) y, w)
                  | inr (u', c1, y, q) ↦ inr (
                    u',
                    c1,
                    rw (even, x) y,
                    join dev mem vmspace sv s takes m sized u u1 u' len u1.uio_resid u.uio_resid p q
                        (omega (arith, p.resid)),
                  )
                ]
        ]
  ]
