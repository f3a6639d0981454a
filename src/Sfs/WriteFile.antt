-- ===== src/Sfs/WriteFile.antt =====
-- os161/kern/fs/sfs/sfs_vnode.c: writing a file with sfs_io.
use azurespider.Prelude.{
  ◌^◌, ℕ, ◌+◌, ◌-◌, ◌*◌, ◌/◌, ◌%◌, ◌≤◌, ◌<◌, ◌≡◌, ◌≢◌, refl, sym, ap, subst, ◌∙◌, ◌⊎◌, inl, inr,
  true, false, not, Bool-cases, [], ltb, ◌==◌, if◌then◌else◌, ℕ_discrete, arith, Run, ok, none,
  some, max,
}
use azurespider.Errno.{Errno, Code}
use azurespider.Uio.Copy.{UserMemory}
use azurespider.Uio.{Uio, uio_write, is_write}
use azurespider.Uio.Move.{Ready, Passed, Passed-refl, Ready-Passed}
use azurespider.Sfs.{Device, Sfs, SfsVnode}
use azurespider.Sfs.Blocks.{Retries, IsSized}
use azurespider.Sfs.Mapping.{Mapped}
use azurespider.Sfs.Look.{byte_at}
use azurespider.Sfs.WriteBytes.{
  hit, after, Writes, then-Writes, nothing_after, hit_less, counted-Whole,
}
use azurespider.Sfs.Write.{write_partial, write_blocks}
use azurespider.Sfs.Io.{partialio, io_blocks, io_body, io_out, io, off_lt, off_lt-ltb}

-- sfs_io writes the range of the uio, or fails; a failed one leaves the bytes outside the range alone.
abbrev pub Written : SfsVnode → Sfs → Uio → Run (Code × SfsVnode × Uio × Sfs) → Type 0
Written sv s u run =
    ((e : Errno) × (sv' : SfsVnode) × (u' : Uio) × (s' : Sfs) × (run ≡ ok (some e, sv', u', s'))
      × Mapped s' sv'
      × IsSized s'
      × (s'.sp_nblocks ≡ s.sp_nblocks)
      × ((j : ℕ)
          → j < 73216
          → hit u.uio_offset u.uio_resid j ≡ false
          → byte_at s' sv' j ≡ byte_at s sv j))
    ⊎ ((sv' : SfsVnode) × (u' : Uio) × (s' : Sfs) × (run ≡ ok (none, sv', u', s'))
        × Mapped s' sv'
        × IsSized s'
        × (s'.sp_nblocks ≡ s.sp_nblocks)
        × (sv'.sv_i.sfi_size ≡ max sv.sv_i.sfi_size (u.uio_offset + u.uio_resid))
        × Passed u u' u.uio_resid []
        × ((j : ℕ) → j < 73216 → byte_at s' sv' j ≡ after u u.uio_resid (byte_at s sv) j))

module _ (dev : Device) (mem : UserMemory) (vmspace : ℕ) where
  write_rest :
      (s : Sfs) (sv : SfsVnode) (u : Uio)
      → Retries dev s.sp_nblocks
      → Mapped s sv
      → IsSized s
      → Ready vmspace u
      → u.uio_rw ≡ uio_write
      → u.uio_offset % 512 ≡ 0
      → u.uio_offset + u.uio_resid ≤ 73216
      → Writes sv s u u.uio_resid (io_blocks dev mem vmspace sv u s)
  unfolding io_blocks
  write_rest s sv u takes m sized r rd aligned lt =
      let n = u.uio_resid / 512 in
      let whole : n * 512 ≤ u.uio_resid = omega arith in
      let even : (u.uio_offset % 512 == 0) ≡ true = ground (arith, aligned) in
      elim (write_blocks dev mem vmspace n s sv u takes m sized r rd whole aligned
        (omega (arith, whole, lt))) [
          | inl (e, sv1, u1, s1, x, w, d, out) ↦ inl (
            e,
            sv1,
            u1,
            s1,
            rw (even, x) refl,
            w,
            d,
            λ j lj miss. out j lj (hit_less u.uio_offset (n * 512) u.uio_resid j whole miss),
          )
          | inr (sv1, u1, s1, x, w, p, now) ↦
              let left : u1.uio_resid < 512 = omega (arith, p.resid) in
              let short : ltb u1.uio_resid 512 ≡ true = ground (arith, left) in
              elim (ℕ_discrete u1.uio_resid 0) [
                | yes done ↦
                    let over : ltb 0 u1.uio_resid ≡ false = ground (arith, done) in
                    let all : n * 512 ≡ u.uio_resid = omega (arith, p.resid, done) in
                    inr (
                      sv1,
                      u1,
                      s1,
                      rw (even, x, short, over) refl,
                      w,
                      subst (λ t. Passed u u1 t []) all p,
                      λ j lj. now j lj ∙ ap (λ t. after u t (byte_at s sv) j) all,
                    )
                | no more ↦
                    let again : ltb 0 u1.uio_resid ≡ true = ground (arith, more) in
                    let flat : u1.uio_offset % 512 ≡ 0 = omega (arith, p.offset, aligned) in
                    then-Writes sv sv1 s s1 u u1 (n * 512) u1.uio_resid u.uio_resid _
                      (partialio dev mem vmspace 0 u1.uio_resid sv1 u1 s1) w p now
                      (rw (even, x, short, again) refl) (omega (arith, p.resid))
                      (subst
                        (λ o.
                          Writes sv1 s1 u1 u1.uio_resid
                            (partialio dev mem vmspace o u1.uio_resid sv1 u1 s1))
                        flat
                        (write_partial dev mem vmspace s1 sv1 u1 u1.uio_resid
                          (subst (Retries dev) (sym w.same_nblocks) takes) w.mapped w.sized
                          (Ready-Passed vmspace u u1 (n * 512) [] r p) (p.same_rw ∙ rd)
                          (omega arith) (omega (arith, flat, left))
                          (omega (arith, p.offset, p.resid, lt, more))))
              ]
        ]

  abbrev rest : SfsVnode → Uio → Sfs → Run (Code × SfsVnode × Uio × Sfs)
  rest sv u t = if u.uio_resid == 0 then ok (none, sv, u, t) else io_blocks dev mem vmspace sv u t

  write_cont :
      (s : Sfs) (sv : SfsVnode) (u : Uio)
      → Retries dev s.sp_nblocks
      → Mapped s sv
      → IsSized s
      → Ready vmspace u
      → u.uio_rw ≡ uio_write
      → (u.uio_resid ≢ 0 → u.uio_offset % 512 ≡ 0)
      → u.uio_offset + u.uio_resid ≤ 73216
      → Writes sv s u u.uio_resid (rest sv u s)
  write_cont s sv u takes m sized r rd aligned lt = elim (ℕ_discrete u.uio_resid 0) [
    | yes done ↦ inr (
      sv,
      u,
      s,
      ap (λ n. if n == 0 then ok (none, sv, u, s) else io_blocks dev mem vmspace sv u s) done,
      counted-Whole s sv s.ios m sized,
      subst (λ n. Passed u u n []) (sym done) (Passed-refl u),
      λ j lj.
          sym (nothing_after u (byte_at s sv) j) ∙ ap (λ n. after u n (byte_at s sv) j) (sym done),
    )
    | no more ↦
        let go : (u.uio_resid == 0) ≡ false = ground (arith, more) in
        subst (Writes sv s u u.uio_resid)
          (sym (ap (λ b. if b then ok (none, sv, u, s) else io_blocks dev mem vmspace sv u s) go))
          (write_rest s sv u takes m sized r rd (aligned more) lt)
  ]

  write_body :
      (s : Sfs) (sv : SfsVnode) (u : Uio)
      → Retries dev s.sp_nblocks
      → Mapped s sv
      → IsSized s
      → Ready vmspace u
      → u.uio_rw ≡ uio_write
      → u.uio_offset + u.uio_resid ≤ 73216
      → Writes sv s u u.uio_resid (io_body dev mem vmspace sv u s)
  unfolding io_body
  write_body s sv u takes m sized r rd lt = elim (ℕ_discrete (u.uio_offset % 512) 0) [
    | yes aligned ↦
        let even : not (u.uio_offset % 512 == 0) ≡ false = ground (arith, aligned) in
        subst (Writes sv s u u.uio_resid) (sym (rw even refl))
          (write_cont s sv u takes m sized r rd (λ z. aligned) lt)
    | no odd ↦
        let even : not (u.uio_offset % 512 == 0) ≡ true = ground (arith, odd) in
        let o = u.uio_offset % 512 in
        let len = if ltb u.uio_resid (512 - o) then u.uio_resid else 512 - o in
        let some_ : len ≤ u.uio_resid = ground arith in
        let fits : o + len ≤ 512 = ground arith in
        let filled : u.uio_resid ≢ len → o + len ≡ 512 = ground arith in
        elim (write_partial dev mem vmspace s sv u len takes m sized r rd some_ fits
          (omega (arith, lt, odd))) [
            | inl (e, sv1, u1, s1, x, w, d, out) ↦ inl (
              e,
              sv1,
              u1,
              s1,
              rw (even, x) refl,
              w,
              d,
              λ j lj miss. out j lj (hit_less u.uio_offset len u.uio_resid j some_ miss),
            )
            | inr (sv1, u1, s1, x, w, p, now) ↦
                then-Writes sv sv1 s s1 u u1 len u1.uio_resid u.uio_resid _ (rest sv1 u1 s1) w p now
                  (rw (even, x) refl) (omega (arith, p.resid))
                  (write_cont s1 sv1 u1 (subst (Retries dev) (sym w.same_nblocks) takes) w.mapped
                    w.sized (Ready-Passed vmspace u u1 len [] r p) (p.same_rw ∙ rd)
                    (λ more. omega (arith, p.offset, filled λ z. more (omega (arith, p.resid, z))))
                    (omega (arith, p.offset, p.resid, lt, some_)))
          ]
  ]

  resized :
      (s : Sfs) (sv : SfsVnode) (n : ℕ)
      → Mapped s sv
      → Mapped s (record sv { sv_i = record (sv.sv_i) { sfi_size = n }; sv_dirty = true })
  resized s sv n m = record {
    fs = m.fs;
    ndirect = m.ndirect;
    nindirect = m.nindirect;
    used = m.used;
    apart = m.apart;
    apart_indirect = m.apart_indirect;
  }

  -- Writing with sfs_io, to a range of bytes that a file can have, either writes exactly that range of
  -- the file and moves the uio on by its length, or fails and leaves the bytes outside the range alone.
  -- After a write without an error the file is as long as before or ends where the write ends, whichever
  -- is more. The blocks of the file stay its own either way, and it never panics. The size of the file
  -- is an off_t, and the device is one on which no d_io that returned EIO has used up its uio.
  pub io_write_lem :
      (sv : SfsVnode) (s : Sfs) (u : Uio)
      → Retries dev s.sp_nblocks
      → Mapped s sv
      → IsSized s
      → Ready vmspace u
      → u.uio_rw ≡ uio_write
      → u.uio_offset + u.uio_resid ≤ 73216
      → sv.sv_i.sfi_size < 2 ^ 31
      → Written sv s u (io dev mem vmspace sv u s)
  unfolding io io_out
  io_write_lem sv s u takes m sized r rd lt is_off =
      let write : is_write u.uio_rw ≡ true = ap is_write rd in
      elim (write_body s sv u takes m sized r rd lt) [
        | inl (e, sv1, u1, s1, x, w, d, out) ↦
            let write1 : is_write u1.uio_rw ≡ true = ap is_write d in
            elim (Bool-cases (off_lt sv1.sv_i.sfi_size u1.uio_offset)) [
              | inl longer ↦ inl (
                e,
                record sv1 {
                  sv_i = record (sv1.sv_i) { sfi_size = u1.uio_offset };
                  sv_dirty = true;
                },
                record u1 { uio_resid = u1.uio_resid + 0 },
                s1,
                rw (write, x, write1, longer) refl,
                resized s1 sv1 u1.uio_offset w.mapped,
                w.sized,
                w.same_nblocks,
                out,
              )
              | inr fits ↦ inl (
                e,
                sv1,
                record u1 { uio_resid = u1.uio_resid + 0 },
                s1,
                rw (write, x, write1, fits) refl,
                w.mapped,
                w.sized,
                w.same_nblocks,
                out,
              )
            ]
        | inr (sv1, u1, s1, x, w, p, now) ↦
            let write1 : is_write u1.uio_rw ≡ true = ap is_write p.same_rw ∙ write in
            let q : Passed u (record u1 { uio_resid = u1.uio_resid + 0 }) u.uio_resid [] = record {
              moved = p.moved;
              iov = p.iov;
              offset = p.offset;
              resid = omega (arith, p.resid);
              same_rw = p.same_rw;
              same_segflg = p.same_segflg;
              same_space = p.same_space;
            } in
            let small : sv1.sv_i.sfi_size < 2147483648 = omega (arith, w.same_size, is_off) in
            let signed : off_lt sv1.sv_i.sfi_size u1.uio_offset
                ≡ ltb sv1.sv_i.sfi_size u1.uio_offset =
              off_lt-ltb sv1.sv_i.sfi_size u1.uio_offset small (omega (arith, p.offset, lt)) in
            elim (Bool-cases (ltb sv1.sv_i.sfi_size u1.uio_offset)) [
              | inl longer ↦ inr (
                record sv1 {
                  sv_i = record (sv1.sv_i) { sfi_size = u1.uio_offset };
                  sv_dirty = true;
                },
                record u1 { uio_resid = u1.uio_resid + 0 },
                s1,
                rw (write, x, write1, signed ∙ longer) refl,
                resized s1 sv1 u1.uio_offset w.mapped,
                w.sized,
                w.same_nblocks,
                ground (arith, longer, w.same_size, p.offset),
                q,
                now,
              )
              | inr fits ↦ inr (
                sv1,
                record u1 { uio_resid = u1.uio_resid + 0 },
                s1,
                rw (write, x, write1, signed ∙ fits) refl,
                w.mapped,
                w.sized,
                w.same_nblocks,
                ground (arith, fits, w.same_size, p.offset),
                q,
                now,
              )
            ]
      ]
