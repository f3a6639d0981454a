-- ===== src/Sfs/Read.antt =====
-- os161/kern/fs/sfs/sfs_vnode.c: reading a file with sfs_io.
use azurespider.Prelude.{
  Bool-cases, ◌^◌, ◌>>=◌, ℕ, ◌+◌, ◌-◌, ◌%◌, ◌≤◌, ◌<◌, ◌≡◌, refl, sym, ap, subst, ◌∙◌, ◌⊎◌, inl, inr,
  true, false, ltb, ℕ_discrete, dec_lt, arith, Run, ok, none, some, min,
}
use azurespider.Uio.Copy.{UserMemory}
use azurespider.Errno.{Errno, Code}
use azurespider.Uio.{Uio, uio_read, is_write}
use azurespider.Uio.Span.{span}
use azurespider.Uio.Move.{Ready, Passed, Passed-refl}
use azurespider.Sfs.{Device, Sfs, SfsVnode}
use azurespider.Sfs.Blocks.{Accepts, IsSized}
use azurespider.Sfs.Mapping.{Mapped}
use azurespider.Sfs.Look.{byte_at}
use azurespider.Sfs.Io.{io_body, io_out, io, off_lt, off_lt-true, off_lt-false}
use azurespider.Sfs.ReadBody.{read_body}
use azurespider.Sfs.ReadPast.{body_past, body_nothing}

-- How much of a read is below the end of the file.
abbrev pub readable : SfsVnode → Uio → ℕ
readable sv u = min u.uio_resid (sv.sv_i.sfi_size - u.uio_offset)

-- sfs_io reads n bytes of the file, or fails; only the count of d_io changes.
abbrev pub ReadsOut : SfsVnode → Sfs → Uio → ℕ → Run (Code × SfsVnode × Uio × Sfs) → Type 0
ReadsOut sv s u n run =
    ((e : Errno) × (u' : Uio) × (c : ℕ) × (run ≡ ok (some e, sv, u', record s { ios = c })))
    ⊎ ((u' : Uio) × (c : ℕ) × (run ≡ ok (none, sv, u', record s { ios = c }))
        × Passed u u' n (span (byte_at s sv) u.uio_offset n))

module _ (dev : Device) (mem : UserMemory) (vmspace : ℕ) where
  abbrev with_resid : Uio → ℕ → Uio
  with_resid u n = record u { uio_resid = n }

  -- sfs_io from the leading partial block on, with the residue cut by `extra`.
  abbrev cut_io : SfsVnode → Sfs → Uio → ℕ → Run (Code × SfsVnode × Uio × Sfs)
  cut_io sv s u extra = io_body dev mem vmspace sv (with_resid u (u.uio_resid - extra)) s >>= λ r.
      io_out dev mem vmspace extra r.0 r.1 r.2 r.3

  cut_io_lem :
      (sv : SfsVnode) (s : Sfs) (u : Uio) (extra : ℕ)
      → Accepts dev s.sp_nblocks
      → Mapped s sv
      → IsSized s
      → Ready vmspace u
      → is_write u.uio_rw ≡ false
      → extra ≤ u.uio_resid
      → u.uio_offset + (u.uio_resid - extra) ≤ 73216
      → u.uio_offset < 73216
      → ReadsOut sv s u (u.uio_resid - extra) (cut_io sv s u extra)
  unfolding io_out
  cut_io_lem sv s u extra takes m sized r rd le lt lo =
      let v = with_resid u (u.uio_resid - extra) in
      let ready : Ready vmspace v = record {
        small = omega (arith, r.small);
        room = omega (arith, r.room);
        space = r.space;
      } in
      elim (read_body dev mem vmspace sv s takes m sized v ready rd lt lo) [
        | inl (e, u', c, x, w) ↦ inl (e, with_resid u' (u'.uio_resid + extra), c, rw (x, w) refl)
        | inr (u', c, x, p) ↦ inr (
          with_resid u' (u'.uio_resid + extra),
          c,
          rw (x, ap is_write p.same_rw ∙ rd) refl,
          record {
            moved = p.moved;
            iov = p.iov;
            offset = p.offset;
            resid = omega (arith, p.resid, le);
            same_rw = p.same_rw;
            same_segflg = p.same_segflg;
            same_space = p.same_space;
          },
        )
      ]

  -- sfs_io fails on what goes far past the largest file.
  whole_past :
      (sv : SfsVnode) (s : Sfs) (u : Uio) (extra : ℕ)
      → Accepts dev s.sp_nblocks
      → Mapped s sv
      → IsSized s
      → Ready vmspace u
      → is_write u.uio_rw ≡ false
      → extra < u.uio_resid
      → 80000 ≤ u.uio_offset + (u.uio_resid - extra)
      → ReadsOut sv s u (readable sv u) (cut_io sv s u extra)
  unfolding io_out
  whole_past sv s u extra takes m sized r rd live past =
      let v = with_resid u (u.uio_resid - extra) in
      let ready : Ready vmspace v = record {
        small = omega (arith, r.small);
        room = omega (arith, r.room);
        space = r.space;
      } in
      let (e, u', c, x, w) =
        body_past dev mem vmspace sv s takes m sized v ready rd (omega (arith, live)) past in
      inl (e, with_resid u' (u'.uio_resid + extra), c, rw (x, w) refl)

  nothing_past :
      (sv : SfsVnode) (s : Sfs) (u : Uio)
      → Accepts dev s.sp_nblocks
      → Mapped s sv
      → IsSized s
      → is_write u.uio_rw ≡ false
      → u.uio_resid ≡ 0
      → 73216 ≤ u.uio_offset
      → ReadsOut sv s u 0 (cut_io sv s u 0)
  unfolding io_out
  nothing_past sv s u takes m sized rd nothing far =
      let v = with_resid u (u.uio_resid - 0) in
      elim (body_nothing dev mem vmspace sv s takes m sized v rd (omega (arith, nothing)) far) [
        | inl (e, u', c, x, w) ↦ inl (e, with_resid u' (u'.uio_resid + 0), c, rw (x, w) refl)
        | inr x ↦
            let p = Passed-refl u in
            inr (
              with_resid u (u.uio_resid - 0 + 0),
              s.ios,
              rw (x, rd) refl,
              record {
                moved = p.moved;
                iov = p.iov;
                offset = p.offset;
                resid = omega arith;
                same_rw = refl;
                same_segflg = refl;
                same_space = refl;
              },
            )
      ]

  -- A read that sfs_io cuts at the end of the file.
  cut_case :
      (sv : SfsVnode) (s : Sfs) (u : Uio) (endpos extra : ℕ)
      → Accepts dev s.sp_nblocks
      → Mapped s sv
      → IsSized s
      → Ready vmspace u
      → is_write u.uio_rw ≡ false
      → sv.sv_i.sfi_size ≤ 73216
      → endpos ≡ (u.uio_offset + u.uio_resid) % 4294967296
      → extra ≡ (endpos + 4294967296 - sv.sv_i.sfi_size) % 4294967296
      → off_lt u.uio_offset sv.sv_i.sfi_size ≡ true
      → off_lt sv.sv_i.sfi_size endpos ≡ true
      → (extra < u.uio_resid) × ReadsOut sv s u (readable sv u) (cut_io sv s u extra)
  cut_case sv s u endpos extra takes m sized r rd small at_end at_extra low high =
      let l = off_lt-true u.uio_offset sv.sv_i.sfi_size low in
      let h = off_lt-true sv.sv_i.sfi_size endpos high in
      let few : u.uio_resid < 4294967296 = r.small in
      elim (dec_lt u.uio_offset sv.sv_i.sfi_size) [
        | yes below ↦
            let cut : extra + sv.sv_i.sfi_size ≡ u.uio_offset + u.uio_resid =
              omega (arith, small, at_end, at_extra, h, few, below) in
            let less : extra < u.uio_resid = omega (arith, cut, below) in
            (
              less,
              subst (λ n. ReadsOut sv s u n (cut_io sv s u extra)) {x = u.uio_resid - extra}
                  (omega (arith, cut, below))
                  (cut_io_lem sv s u extra takes m sized r rd (omega (arith, less))
                    (omega (arith, cut, small)) (omega (arith, below, small))),
            )
        | no past ↦
            let far : 2147483648 ≤ u.uio_offset = omega (arith, small, l, past) in
            let less : extra < u.uio_resid = omega (arith, small, at_end, at_extra, l, h, few) in
            (less, whole_past sv s u extra takes m sized r rd less (omega (arith, far)))
      ]

  -- A read that it does not cut.
  whole_case :
      (sv : SfsVnode) (s : Sfs) (u : Uio) (endpos : ℕ)
      → Accepts dev s.sp_nblocks
      → Mapped s sv
      → IsSized s
      → Ready vmspace u
      → is_write u.uio_rw ≡ false
      → sv.sv_i.sfi_size ≤ 73216
      → endpos ≡ (u.uio_offset + u.uio_resid) % 4294967296
      → off_lt u.uio_offset sv.sv_i.sfi_size ≡ true
      → off_lt sv.sv_i.sfi_size endpos ≡ false
      → ReadsOut sv s u (readable sv u) (cut_io sv s u 0)
  whole_case sv s u endpos takes m sized r rd small at_end low high =
      let l = off_lt-true u.uio_offset sv.sv_i.sfi_size low in
      let h = off_lt-false sv.sv_i.sfi_size endpos high in
      let few : u.uio_resid < 4294967296 = r.small in
      elim (dec_lt u.uio_offset sv.sv_i.sfi_size) [
        | yes below ↦ elim (dec_lt sv.sv_i.sfi_size (u.uio_offset + u.uio_resid)) [
          | no fits ↦
              subst (λ n. ReadsOut sv s u n (cut_io sv s u 0)) {x = u.uio_resid - 0}
                (omega (arith, fits))
                (cut_io_lem sv s u 0 takes m sized r rd (omega arith) (omega (arith, fits, small))
                  (omega (arith, below, small)))
          | yes over ↦
              let far : 2147483648 ≤ u.uio_offset + u.uio_resid =
                omega (arith, small, at_end, h, below, over) in
              whole_past sv s u 0 takes m sized r rd (omega (arith, far, below, small))
                (omega (arith, far))
        ]
        | no past ↦
            let far : 2147483648 ≤ u.uio_offset = omega (arith, small, l, past) in
            elim (ℕ_discrete u.uio_resid 0) [
              | yes nothing ↦
                  subst (λ n. ReadsOut sv s u n (cut_io sv s u 0)) {x = 0} (omega (arith, nothing))
                    (nothing_past sv s u takes m sized rd nothing (omega (arith, far)))
              | no live ↦
                  whole_past sv s u 0 takes m sized r rd (omega (arith, live)) (omega (arith, far))
            ]
      ]

  -- A residue that is not cut.
  uncut :
      (sv : SfsVnode) (s : Sfs) (u : Uio)
      → cut_io sv s u 0
        ≡ (io_body dev mem vmspace sv u s >>= λ r. io_out dev mem vmspace 0 r.0 r.1 r.2 r.3)
  uncut sv s u =
      ap
        (λ n. io_body dev mem vmspace sv (with_resid u n) s >>= λ r.
          io_out dev mem vmspace 0 r.0 r.1 r.2 r.3)
        {x = u.uio_resid - 0} {y = u.uio_resid} (omega arith)

  pub io_read_lem :
      (sv : SfsVnode) (s : Sfs) (u : Uio)
      → Accepts dev s.sp_nblocks
      → Mapped s sv
      → IsSized s
      → Ready vmspace u
      → u.uio_rw ≡ uio_read
      → sv.sv_i.sfi_size ≤ 73216
      → ReadsOut sv s u (readable sv u) (io dev mem vmspace sv u s)
  unfolding io
  io_read_lem sv s u takes m sized r rd small =
      let no_write : is_write u.uio_rw ≡ false = ap is_write rd in
      let size = sv.sv_i.sfi_size in
      let endpos = (u.uio_offset + u.uio_resid) % 2 ^ 32 in
      let extra = (endpos + 2 ^ 32 - size) % 2 ^ 32 in
      elim (Bool-cases (off_lt u.uio_offset size)) [
        | inr past ↦
            let p = off_lt-false u.uio_offset size past in
            let nothing : 0 ≡ readable sv u = omega (arith, p, small) in
            inr (
              u,
              s.ios,
              rw (no_write, past) refl,
              subst (λ n. Passed u u n (span (byte_at s sv) u.uio_offset n)) nothing
                  (Passed-refl u),
            )
        | inl below ↦ elim (Bool-cases (off_lt size endpos)) [
          | inl over ↦
              let (less, ends) =
                cut_case sv s u endpos extra takes m sized r no_write small refl refl below over in
              let part : ltb extra u.uio_resid ≡ true = ground (arith, less) in
              subst (ReadsOut sv s u (readable sv u)) (sym (rw (no_write, below, over, part) refl))
                ends
          | inr fits ↦
              let ends = whole_case sv s u endpos takes m sized r no_write small refl below fits in
              subst (ReadsOut sv s u (readable sv u))
                (sym (rw (no_write, below, fits) refl ∙ sym (uncut sv s u))) ends
        ]
      ]
