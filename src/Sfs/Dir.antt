-- ===== src/Sfs/Dir.antt =====
-- os161/kern/fs/sfs/sfs_vnode.c: the slots of a directory. A struct sfs_dir is its 64 bytes; `base` is
-- the address of the one that is read or written, `old` what it holds before it is read.
use azurespider.Prelude.{
  ℕ, zero, suc, ◌+◌, ◌-◌, ◌*◌, ◌≤◌, ◌<◌, ◌≡◌, refl, sym, ap, subst, ◌∙◌, ◌⊎◌, inl, inr, true, false,
  none, some, List, [], ◌∷◌, ltb, ◌==◌, if◌then◌else◌, get_or, take, length, replicate, ℕ_discrete,
  arith, Run, ok, panic, ◌>>=◌, max, min,
}
use azurespider.Uio.Copy.{UserMemory}
use azurespider.Errno.{Errno, Code, Answer, err, got}
use azurespider.Uio.{UioRw, uio_read, uio_write, mk_kuio}
use azurespider.Uio.Span.{span, span_same, take-drop-span}
use azurespider.Uio.Move.{Ready}
use azurespider.Sfs.{Device, Sfs, SfsVnode}
use azurespider.Sfs.Blocks.{Accepts, Retries, IsSized}
use azurespider.Sfs.Mapping.{Mapped}
use azurespider.Sfs.Look.{byte_at}
use azurespider.Sfs.WriteBytes.{hit}
use azurespider.Sfs.Io.{io}
use azurespider.Sfs.Read.{io_read_lem}
use azurespider.Sfs.WriteFile.{io_write_lem}

no_more : (n : ℕ) → n ≡ 0 → ltb 0 n ≡ false
no_more n z = ground (arith, z)

take_all : (n : ℕ) (xs : List ℕ) → length xs ≤ n → take n xs ≡ xs
take_all zero [] h = refl
take_all zero (x ∷ xs) h = absurd (omega (arith, h))
take_all (suc n) [] h = refl
take_all (suc n) (x ∷ xs) h = ap (λ ys. x ∷ ys) (take_all n xs (omega (arith, h)))

module _ (dev : Device) (mem : UserMemory) (vmspace base : ℕ) where
  -- sfs_readdir
  unfoldable pub readdir : List ℕ → ℕ → SfsVnode → Sfs → Run (Answer (List ℕ) × SfsVnode × Sfs)
  readdir old slot sv s = do
    (result, sv1, ku, s1) ← io dev mem vmspace sv (mk_kuio base old (slot * 64) uio_read) s
    elim result [
      | some e ↦ ok (err e, sv1, s1)
      | none ↦ if ltb 0 ku.uio_resid then panic else ok (got ku.moved, sv1, s1)
    ]

  -- sfs_writedir, with slot >= 0
  unfoldable pub writedir : List ℕ → ℕ → SfsVnode → Sfs → Run (Code × SfsVnode × Sfs)
  writedir sd slot sv s = do
    (result, sv1, ku, s1) ← io dev mem vmspace sv (mk_kuio base sd (slot * 64) uio_write) s
    elim result [
      | some e ↦ ok (some e, sv1, s1)
      | none ↦ if ltb 0 ku.uio_resid then panic else ok (none, sv1, s1)
    ]

  -- sfs_dir_unlink
  unfoldable pub dir_unlink : ℕ → SfsVnode → Sfs → Run (Code × SfsVnode × Sfs)
  dir_unlink slot sv s = writedir (replicate 64 0) slot sv s

  -- A slot is read as `bytes`, or reading fails; only the count of d_io changes.
  abbrev pub SlotReads : SfsVnode → Sfs → List ℕ → Run (Answer (List ℕ) × SfsVnode × Sfs) → Type 0
  SlotReads sv s bytes run =
      ((e : Errno) × (c : ℕ) × (run ≡ ok (err e, sv, record s { ios = c })))
      ⊎ ((c : ℕ) × (run ≡ ok (got bytes, sv, record s { ios = c })))

  kuio-Ready :
      (bytes : List ℕ) (pos : ℕ) (d : UioRw)
      → length bytes ≡ 64
      → Ready vmspace (mk_kuio base bytes pos d)
  unfolding mk_kuio
  kuio-Ready bytes pos d len = record {
    small = omega (arith, len);
    room = omega arith;
    space = refl;
  }

  pub readdir_lem :
      (old : List ℕ) (slot : ℕ) (sv : SfsVnode) (s : Sfs)
      → Accepts dev s.sp_nblocks
      → Mapped s sv
      → IsSized s
      → length old ≡ 64
      → slot * 64 + 64 ≤ sv.sv_i.sfi_size
      → sv.sv_i.sfi_size ≤ 73216
      → SlotReads sv s (span (byte_at s sv) (slot * 64) 64) (readdir old slot sv s)
  unfolding readdir mk_kuio
  readdir_lem old slot sv s takes m sized len inside small =
      let u = mk_kuio base old (slot * 64) uio_read in
      elim (io_read_lem dev mem vmspace sv s u takes m sized
        (kuio-Ready old (slot * 64) uio_read len) refl small) [
          | inl (e, u', c, x) ↦ inl (e, c, rw x refl)
          | inr (u', c, x, p) ↦
              let n : min (length old) (sv.sv_i.sfi_size - slot * 64) ≡ 64 =
                omega (arith, len, inside) in
              let all : ltb 0 u'.uio_resid ≡ false =
                no_more u'.uio_resid (omega (arith, p.resid, n, len)) in
              inr (
                c,
                rw (x, all)
                    (ap (λ bytes. ok (got bytes, sv, record s { ios = c }))
                      (p.moved ∙ ap (span (byte_at s sv) (slot * 64)) n)),
              )
        ]

  -- Writing a slot of a directory fails, or each slot reads as before and this one as it was written.
  -- It never panics, and the directory keeps its blocks to itself. The device is one on which no d_io
  -- that returned EIO has used up its uio.
  pub readdir-writedir :
      (sd : List ℕ) (slot : ℕ) (sv : SfsVnode) (s : Sfs)
      → Retries dev s.sp_nblocks
      → Mapped s sv
      → IsSized s
      → length sd ≡ 64
      → slot * 64 + 64 ≤ 73216
      → sv.sv_i.sfi_size ≤ 73216
      → ((e : Errno) × (sv' : SfsVnode) × (s' : Sfs) × (writedir sd slot sv s
            ≡ ok (some e, sv', s'))
          × Mapped s' sv')
        ⊎ ((sv' : SfsVnode) × (s' : Sfs) × (writedir sd slot sv s ≡ ok (none, sv', s'))
            × Mapped s' sv'
            × (sv'.sv_i.sfi_size ≡ max sv.sv_i.sfi_size (slot * 64 + 64))
            × ((k : ℕ) (old : List ℕ)
                → length old ≡ 64
                → k * 64 + 64 ≤ sv'.sv_i.sfi_size
                → SlotReads sv' s'
                    (if k == slot then sd else span (byte_at s sv) (k * 64) 64)
                    (readdir old k sv' s')))
  unfolding writedir mk_kuio
  readdir-writedir sd slot sv s takes m sized len inside small =
      let u = mk_kuio base sd (slot * 64) uio_write in
      elim (io_write_lem dev mem vmspace sv s u takes m sized
        (kuio-Ready sd (slot * 64) uio_write len) refl (omega (arith, inside, len))
        (omega (arith, small))) [
          | inl (e, sv', u', s', x, m', sized', same, rest) ↦ inl (e, sv', s', rw x refl, m')
          | inr (sv', u', s', x, m', sized', same, size, p, bytes) ↦
              let all : ltb 0 u'.uio_resid ≡ false =
                no_more u'.uio_resid (omega (arith, p.resid)) in
              let longer : sv'.sv_i.sfi_size ≡ max sv.sv_i.sfi_size (slot * 64 + 64) =
                size ∙ ap (λ n. max sv.sv_i.sfi_size (slot * 64 + n)) len in
              let read_back : (k : ℕ)
                  → k * 64 + 64 ≤ 73216
                  → span (byte_at s' sv') (k * 64) 64
                    ≡ (if k == slot then sd else span (byte_at s sv) (k * 64) 64) =
                λ k lk. elim (ℕ_discrete k slot) [
                  | yes here ↦
                      let chosen : (k == slot) ≡ true = ground (arith, here) in
                      rw chosen (
                        span_same (byte_at s' sv') (λ i. get_or sd i 0) (k * 64) 0 64
                          (λ i li.
                            let lj : k * 64 + i < 73216 = omega (arith, here, inside, li) in
                            let in_it : hit (slot * 64) (length sd) (k * 64 + i) ≡ true =
                              ground (arith, here, len, li) in
                            let at : k * 64 + i - slot * 64 ≡ 0 + i = omega (arith, here) in
                            bytes (k * 64 + i) lj ∙ rw in_it (ap (λ o. get_or sd o 0) at))
                        ∙ sym (take-drop-span sd 0 64 (omega (arith, len)))
                        ∙ take_all 64 sd (omega (arith, len)))
                  | no other ↦
                      let chosen : (k == slot) ≡ false = ground (arith, other) in
                      rw chosen (
                        span_same (byte_at s' sv') (byte_at s sv) (k * 64) (k * 64) 64 λ i li.
                          let miss : hit (slot * 64) (length sd) (k * 64 + i) ≡ false =
                            ground (arith, other, len, li) in
                          bytes (k * 64 + i) (omega (arith, lk, li)) ∙ rw miss refl)
                ] in
              inr (
                sv',
                s',
                rw (x, all) refl,
                m',
                longer,
                λ k old ol inside_k.
                    let end : sv'.sv_i.sfi_size ≤ 73216 = omega (arith, longer, small, inside) in
                    subst (λ b. SlotReads sv' s' b (readdir old k sv' s'))
                      (read_back k (omega (arith, inside_k, end)))
                      (readdir_lem old k sv' s' (subst (Accepts dev) (sym same) takes.0) m' sized'
                        ol inside_k end),
              )
        ]

  -- sfs_dir_unlink of a slot below the end of the directory fails, or the slot reads as 64 zeros, which are SFS_NOINO and an empty name, and every
  -- other slot as before. It never panics. The device is one on which no d_io that returned EIO has used
  -- up its uio.
  pub readdir-dir_unlink :
      (slot : ℕ) (sv : SfsVnode) (s : Sfs)
      → Retries dev s.sp_nblocks
      → Mapped s sv
      → IsSized s
      → slot * 64 + 64 ≤ sv.sv_i.sfi_size
      → sv.sv_i.sfi_size ≤ 73216
      → ((e : Errno) × (sv' : SfsVnode) × (s' : Sfs) × (dir_unlink slot sv s ≡ ok (some e, sv', s'))
          × Mapped s' sv')
        ⊎ ((sv' : SfsVnode) × (s' : Sfs) × (dir_unlink slot sv s ≡ ok (none, sv', s'))
            × Mapped s' sv'
            × (sv'.sv_i.sfi_size ≡ max sv.sv_i.sfi_size (slot * 64 + 64))
            × ((k : ℕ) (old : List ℕ)
                → length old ≡ 64
                → k * 64 + 64 ≤ sv'.sv_i.sfi_size
                → SlotReads sv' s'
                    (if k == slot then replicate 64 0 else span (byte_at s sv) (k * 64) 64)
                    (readdir old k sv' s')))
  unfolding dir_unlink
  readdir-dir_unlink slot sv s takes m sized inside small =
      readdir-writedir (replicate 64 0) slot sv s takes m sized refl (omega (arith, inside, small))
        small
