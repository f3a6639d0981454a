-- ===== src/Uio.antt =====
-- os161/kern/userprog/uio.c with include/uio.h: moving bytes between a buffer of the kernel and the
-- memory that a struct uio describes. A size_t is a number below 2^32.
pub mod Copy
pub mod Move
pub mod Span
mod Tests
use azurespider.Prelude.{
  ℕ, zero, suc, ◌+◌, ◌-◌, ◌*◌, ◌/◌, ◌%◌, ◌^◌, Bool, true, false, not, ◌&&◌, Option, none, some,
  List, [], ◌∷◌, ◌++◌, ltb, leb, ◌==◌, if◌then◌else◌, take, drop, length, replicate, Run, ok, panic,
  timeout, ◌>>=◌, ◌>>◌, assert,
}
use azurespider.Errno.{Errno, efault, Code, Answer, err, got}
use azurespider.Uio.Copy.{UserMemory, copy, copied}

-- enum uio_rw and enum uio_seg
pub data UioRw : Type 0 where
  uio_read uio_write : UioRw

pub data UioSeg : Type 0 where
  uio_userspace uio_sysspace uio_userispace : UioSeg

-- struct uio, and the memory behind it: `iov` is the iov_len bytes at `iov_base`, and `moved` is what
-- reading has stored below `iov_base`. A null `uio_space` is 0.
pub record Uio : Type 0 where
  pub iov_base : ℕ
  pub iov : List ℕ
  pub moved : List ℕ
  pub uio_offset : ℕ
  pub uio_resid : ℕ
  pub uio_segflg : UioSeg
  pub uio_rw : UioRw
  pub uio_space : ℕ

abbrev pub is_write : UioRw → Bool
is_write uio_read = false
is_write uio_write = true

abbrev pub is_sysspace : UioSeg → Bool
is_sysspace uio_sysspace = true
is_sysspace g = false

-- The buffer of the kernel, and the uio, after `size` bytes are moved.
abbrev pub stored : UioRw → ℕ → List ℕ → List ℕ → List ℕ
stored uio_read size buf iov = take size buf
stored uio_write size buf iov = take size iov

-- The buffer of the kernel, and the uio, after a transfer that faults once k bytes are copied.
abbrev pub half_stored : UioRw → ℕ → List ℕ → List ℕ → List ℕ
half_stored uio_read k buf iov = buf
half_stored uio_write k buf iov = take k iov ++ drop k buf

abbrev pub half_received : UioRw → ℕ → List ℕ → List ℕ → List ℕ
half_received uio_read k buf iov = take k buf ++ drop k iov
half_received uio_write k buf iov = iov

abbrev pub interrupted : ℕ → List ℕ → Uio → Uio
interrupted k buf u = record u { iov = half_received u.uio_rw k buf u.iov }

abbrev pub received : UioRw → ℕ → List ℕ → List ℕ → List ℕ
received uio_read size buf moved = moved ++ take size buf
received uio_write size buf moved = moved

abbrev pub advance : ℕ → List ℕ → Uio → Uio
advance size buf u = record u {
  iov_base = u.iov_base + size;
  iov = drop size u.iov;
  moved = received u.uio_rw size buf u.moved;
  uio_resid = (u.uio_resid + 2 ^ 32 - size) % 2 ^ 32;
  uio_offset = u.uio_offset + size;
}

-- mk_kuio
unfoldable pub mk_kuio : ℕ → List ℕ → ℕ → UioRw → Uio
mk_kuio base buf pos rw = record {
  iov_base = base;
  iov = buf;
  moved = [];
  uio_offset = pos;
  uio_resid = length buf;
  uio_segflg = uio_sysspace;
  uio_rw = rw;
  uio_space = 0;
}

-- How many of n bytes a pass of uiomove moves.
pub amount : ℕ → Uio → ℕ
amount n u = if ltb n (length u.iov) then n else length u.iov

module _ (mem : UserMemory) (vmspace : ℕ) where
  -- What copyin, copyout or memmove returns, and how many bytes it has copied.
  pub transfer : UioSeg → ℕ → ℕ → Code × ℕ
  transfer uio_sysspace base size = (none, size)
  transfer uio_userspace base size = (copy mem.faults base size, copied mem base size)
  transfer uio_userispace base size = (copy mem.faults base size, copied mem base size)

  -- One pass of the loop of uiomove, and what comes after it. A transfer that fails leaves what it
  -- has copied, and the counters of the uio as they were.
  pub move_on : ℕ → List ℕ → Uio → Run (Code × List ℕ × Uio) → Run (Code × List ℕ × Uio)
  move_on size buf u rest =
      let (result, k) = transfer u.uio_segflg u.iov_base size in
      elim result [
        | some e ↦ ok (some e, half_stored u.uio_rw k buf u.iov, interrupted k buf u)
        | none ↦ (do
          (result', buf', u') ← rest
          ok (result', stored u.uio_rw size buf u.iov ++ buf', u'))
      ]

  -- The loop of uiomove over the n bytes that `buf` starts with. It returns them as it leaves them.
  pub uiomove_loop : ℕ → List ℕ → ℕ → Uio → Run (Code × List ℕ × Uio)
  uiomove_loop zero buf n u = timeout
  uiomove_loop (suc rounds) buf n u =
      let size = amount n u in
      let rest = uiomove_loop rounds (drop size buf) (n - size) (advance size buf u) in
      if ltb 0 n && ltb 0 u.uio_resid
      then (if size == 0 then panic else move_on size buf u rest)
      else ok (none, buf, u)

  -- uiomove
  pub uiomove : List ℕ → ℕ → Uio → Run (Code × List ℕ × Uio)
  uiomove buf n u = do
    assert (if is_sysspace u.uio_segflg then u.uio_space == 0 else u.uio_space == vmspace)
    uiomove_loop (n + 1) buf n u

  -- uiomovezeros
  pub uiomovezeros_loop : ℕ → ℕ → Uio → Run (Code × Uio)
  uiomovezeros_loop zero n u = timeout
  uiomovezeros_loop (suc rounds) n u =
      let amt = if ltb n 16 then n else 16 in
      let again = (do
        (result, zeros, u') ← uiomove (replicate 16 0) amt u
        elim result [ some e ↦ ok (some e, u') | none ↦ uiomovezeros_loop rounds (n - amt) u' ]) in
      if ltb 0 n then again else ok (none, u)

  pub uiomovezeros : ℕ → Uio → Run (Code × Uio)
  uiomovezeros n u = do assert (not (is_write u.uio_rw)); uiomovezeros_loop (n + 1) n u
