-- ===== src/Sfs/Write.antt =====
-- os161/kern/fs/sfs/sfs_vnode.c: writing a file with sfs_io, block by block.
use azurespider.Prelude.{
  ℕ, zero, suc, ◌+◌, ◌*◌, ◌/◌, ◌%◌, ◌≤◌, ◌<◌, ◌≡◌, refl, sym, ap, subst, ◌∙◌, inl, inr, true, not,
  [], leb, ◌==◌, if◌then◌else◌, arith, Run, ok, some, assert, ◌>>=◌,
}
use azurespider.Uio.Copy.{UserMemory}
use azurespider.Errno.{Code, err, got}
use azurespider.Uio.{Uio, uio_write, is_write, uiomovezeros}
use azurespider.Uio.Move.{Ready, Passed-refl, Ready-Passed}
use azurespider.Sfs.{Device, Sfs, SfsVnode, bmap}
use azurespider.Sfs.Blocks.{Retries, IsSized}
use azurespider.Sfs.Mapping.{block_of, Mapped}
use azurespider.Sfs.Look.{byte_at}
use azurespider.Sfs.ReadBlock.{leb-true}
use azurespider.Sfs.Io.{partial_load, partialio, block_transfer, blockio, blocks_loop}
use azurespider.Sfs.WriteBytes.{
  Writes, then-Writes, nothing_after, counted-Whole, eq_false, hit_less,
}
use azurespider.Sfs.WriteBlock.{write_loaded, write_device, write_grown}

module _ (dev : Device) (mem : UserMemory) (vmspace : ℕ) where
  pub write_partial :
      (s : Sfs) (sv : SfsVnode) (u : Uio) (n : ℕ)
      → Retries dev s.sp_nblocks
      → Mapped s sv
      → IsSized s
      → Ready vmspace u
      → u.uio_rw ≡ uio_write
      → n ≤ u.uio_resid
      → u.uio_offset % 512 + n ≤ 512
      → u.uio_offset < 73216
      → Writes sv s u n (partialio dev mem vmspace (u.uio_offset % 512) n sv u s)
  unfolding partialio
  write_partial s sv u n takes m sized r rd le fits lt =
      let narrow : leb (u.uio_offset % 512 + n) 512 ≡ true =
        leb-true (u.uio_offset % 512 + n) 512 fits in
      let skip = u.uio_offset % 512 in
      subst (Writes sv s u n) (sym (rw (narrow, ap is_write rd) refl)) (
        write_grown dev mem vmspace s sv u n
          (λ b sv1 s1. partial_load dev mem vmspace skip n b sv1 u s1) takes m sized rd lt
          λ s1 sv1 w there.
            write_loaded dev mem vmspace s1 sv1 u n (subst (Retries dev) (sym w.same_nblocks) takes)
              w.mapped w.sized r rd le fits lt there)

  write_block :
      (s : Sfs) (sv : SfsVnode) (u : Uio)
      → Retries dev s.sp_nblocks
      → Mapped s sv
      → IsSized s
      → Ready vmspace u
      → u.uio_rw ≡ uio_write
      → 512 ≤ u.uio_resid
      → u.uio_offset % 512 ≡ 0
      → u.uio_offset < 73216
      → Writes sv s u 512 (blockio dev mem vmspace sv u s)
  unfolding blockio
  write_block s sv u takes m sized r rd le aligned lt =
      let cont : ℕ → SfsVnode → Sfs → Run (Code × SfsVnode × Uio × Sfs) = λ b sv1 s1.
        if b == 0
        then (assert (not (is_write u.uio_rw)) >>= λ t.
            uiomovezeros mem vmspace 512 u >>= λ z. ok (z.0, sv1, z.1, s1))
        else block_transfer dev mem vmspace b sv1 u s1 in
      subst (Writes sv s u 512)
        (sym (
          ap
            (λ w. bmap dev (u.uio_offset / 512) w sv s >>= λ r. elim r.0 [
              | err e ↦ ok (some e, r.1, u, r.2)
              | got b ↦ cont b r.1 r.2
            ])
            (ap is_write rd)))
        (write_grown dev mem vmspace s sv u 512 cont takes m sized rd lt λ s1 sv1 w there.
          let live = eq_false (block_of s1 sv1 (u.uio_offset / 512)) 0 there in
          subst (Writes sv1 s1 u 512)
            (sym (
              ap
                (λ t.
                  if t
                  then (assert (not (is_write u.uio_rw)) >>= λ t.
                      uiomovezeros mem vmspace 512 u >>= λ z. ok (z.0, sv1, z.1, s1))
                  else block_transfer dev mem vmspace (block_of s1 sv1 (u.uio_offset / 512)) sv1 u
                      s1)
                live))
            (write_device dev mem vmspace s1 sv1 u (subst (Retries dev) (sym w.same_nblocks) takes)
              w.mapped w.sized r rd le aligned lt there))

  pub write_blocks :
      (nblocks : ℕ) (s : Sfs) (sv : SfsVnode) (u : Uio)
      → Retries dev s.sp_nblocks
      → Mapped s sv
      → IsSized s
      → Ready vmspace u
      → u.uio_rw ≡ uio_write
      → nblocks * 512 ≤ u.uio_resid
      → u.uio_offset % 512 ≡ 0
      → u.uio_offset + nblocks * 512 ≤ 73216
      → Writes sv s u (nblocks * 512) (blocks_loop dev mem vmspace nblocks sv u s)
  unfolding blocks_loop
  write_blocks zero s sv u takes m sized r rd le aligned lt = inr (
    sv,
    u,
    s,
    refl,
    counted-Whole s sv s.ios m sized,
    Passed-refl u,
    λ j lj. sym (nothing_after u (byte_at s sv) j),
  )
  write_blocks (suc n) s sv u takes m sized r rd le aligned lt =
      elim (write_block s sv u takes m sized r rd (omega (arith, le)) aligned (omega (arith, lt))) [
        | inl (e, sv1, u1, s1, x, w, d, out) ↦ inl (
          e,
          sv1,
          u1,
          s1,
          rw x refl,
          w,
          d,
          λ j lj miss. out j lj (hit_less u.uio_offset 512 (suc n * 512) j (omega arith) miss),
        )
        | inr (sv1, u1, s1, x, w, p, now) ↦
            then-Writes sv sv1 s s1 u u1 512 (n * 512) (suc n * 512) _ _ w p now (rw x refl)
              (omega arith)
              (write_blocks n s1 sv1 u1 (subst (Retries dev) (sym w.same_nblocks) takes) w.mapped
                w.sized (Ready-Passed vmspace u u1 512 [] r p) (p.same_rw ∙ rd)
                (omega (arith, le, p.resid)) (omega (arith, p.offset, aligned))
                (omega (arith, p.offset, lt)))
      ]
