-- ===== src/Sfs/Io.antt =====
-- os161/kern/fs/sfs/sfs_vnode.c: sfs_partialio, sfs_blockio and sfs_io, which move the bytes between a
-- file and a struct uio. `mem` and `vmspace` are those of uiomove.
use azurespider.Prelude.{
  false, Bool-cases, inl, inr, ◌≡◌, ◌<◌, ◌≤◌, arith, refl, ℕ, zero, suc, ◌+◌, ◌-◌, ◌*◌, ◌/◌, ◌%◌,
  ◌^◌, Bool, true, not, ◌&&◌, none, some, List, ◌++◌, ltb, leb, ◌==◌, if◌then◌else◌, take, drop,
  replicate, Run, ok, ◌>>=◌, ◌>>◌, assert,
}
use azurespider.Errno.{Code, err, got}
use azurespider.Uio.Copy.{UserMemory}
use azurespider.Uio.{Uio, is_write, advance, interrupted, uiomove, uiomovezeros}
use azurespider.Sfs.{Device, Sfs, SfsVnode, put_block, rwblock, rblock, wblock, bmap}

-- A uio with an offset and a residue of its own for a while.
abbrev pub with_span : Uio → ℕ → ℕ → Uio
with_span u offset resid = record u { uio_offset = offset; uio_resid = resid }

-- The uio after a d_io that has failed with `moved` bytes of the block moved: a write that moved all
-- of them has used it up, a read has left those bytes in its memory.
pub stopped : ℕ → List ℕ → Uio → Uio
stopped moved bytes u =
    if is_write u.uio_rw && leb 512 moved
    then advance 512 bytes u
    else interrupted (if ltb moved 512 then moved else 512) bytes u

pub stopped-same_rw :
    (moved : ℕ) (bytes : List ℕ) (u : Uio) → (stopped moved bytes u).uio_rw ≡ u.uio_rw
unfolding stopped
stopped-same_rw moved bytes u = elim (Bool-cases (is_write u.uio_rw && leb 512 moved)) [
  | inl spent ↦ rw spent refl
  | inr kept ↦ rw kept refl
]

-- Whether a < b for two off_t, which are 32 bits with a sign: those from 2^31 on are negative.
pub off_lt : ℕ → ℕ → Bool
off_lt a b = ltb ((a + 2 ^ 31) % 2 ^ 32) ((b + 2 ^ 31) % 2 ^ 32)

pub off_lt-true :
    (a b : ℕ) → off_lt a b ≡ true → (a + 2147483648) % 4294967296 < (b + 2147483648) % 4294967296
unfolding off_lt
off_lt-true a b h = ground (arith, h)

pub off_lt-false :
    (a b : ℕ) → off_lt a b ≡ false → (b + 2147483648) % 4294967296 ≤ (a + 2147483648) % 4294967296
unfolding off_lt
off_lt-false a b h = ground (arith, h)

-- On small numbers it is the order of numbers.
pub off_lt-ltb : (a b : ℕ) → a < 2147483648 → b < 2147483648 → off_lt a b ≡ ltb a b
unfolding off_lt
off_lt-ltb a b la lb = ground (arith, la, lb)

module _ (dev : Device) (mem : UserMemory) (vmspace : ℕ) where
  -- The end of sfs_partialio, with `iobuf` filled.
  unfoldable pub partial_move :
      ℕ → ℕ → List ℕ → ℕ → SfsVnode → Uio → Sfs → Run (Code × SfsVnode × Uio × Sfs)
  partial_move skipstart len iobuf diskblock sv u s = do
    (result, part, u1) ← uiomove mem vmspace (drop skipstart iobuf) len u
    let save = (do
      (result2, s1) ← wblock dev (take skipstart iobuf ++ part) diskblock s
      ok (result2, sv, u1, s1))
    elim result [
      | some e ↦ ok (some e, sv, u1, s)
      | none ↦ if is_write u.uio_rw then save else ok (none, sv, u1, s)
    ]

  -- sfs_partialio once the block is looked up.
  unfoldable pub partial_load : ℕ → ℕ → ℕ → SfsVnode → Uio → Sfs → Run (Code × SfsVnode × Uio × Sfs)
  partial_load skipstart len diskblock sv u s =
      let blank = (do
        assert (not (is_write u.uio_rw))
        partial_move skipstart len (replicate 512 0) diskblock sv u s) in
      let load = (do
        (result, s1) ← rblock dev diskblock s
        elim result [
          | err e ↦ ok (some e, sv, u, s1)
          | got iobuf ↦ partial_move skipstart len iobuf diskblock sv u s1
        ]) in
      if diskblock == 0 then blank else load

  -- sfs_partialio
  unfoldable pub partialio : ℕ → ℕ → SfsVnode → Uio → Sfs → Run (Code × SfsVnode × Uio × Sfs)
  partialio skipstart len sv u s = do
    assert (leb (skipstart + len) 512)
    (result, sv1, s1) ← bmap dev (u.uio_offset / 512) (is_write u.uio_rw) sv s
    elim result [
      | err e ↦ ok (some e, sv1, u, s1)
      | got diskblock ↦ partial_load skipstart len diskblock sv1 u s1
    ]

  -- sfs_rwblock with the transfer between the block and the uio.
  unfoldable pub rwblock_uio : ℕ → Uio → Sfs → Run (Code × Uio × Sfs)
  rwblock_uio diskblock u s = do
    (result, moved, s1) ← rwblock dev (is_write u.uio_rw) 10 diskblock 0 s
    let bytes = s1.blocks diskblock
    elim result [
      | some e ↦ ok (some e, stopped moved bytes u, s1)
      | none ↦
          if is_write u.uio_rw && not (leb 512 moved)
          then ok (none, advance 512 bytes u, put_block s1 diskblock (take 512 u.iov))
          else ok (none, advance 512 bytes u, s1)
    ]

  -- The transfer of sfs_blockio, with the offset and the residue saved and restored.
  unfoldable pub block_transfer : ℕ → SfsVnode → Uio → Sfs → Run (Code × SfsVnode × Uio × Sfs)
  block_transfer diskblock sv u s = do
    let diskoff = diskblock * 512 % 2 ^ 32
    assert (leb 512 u.uio_resid)
    (result, u1, s1) ← rwblock_uio diskblock (with_span u diskoff 512) s
    ok (
      result,
      sv,
      with_span u1 (u1.uio_offset - diskoff + u.uio_offset)
          ((u1.uio_resid + 2 ^ 32 - 512 + u.uio_resid) % 2 ^ 32),
      s1,
    )

  -- sfs_blockio
  unfoldable pub blockio : SfsVnode → Uio → Sfs → Run (Code × SfsVnode × Uio × Sfs)
  blockio sv u s = do
    (result, sv1, s1) ← bmap dev (u.uio_offset / 512) (is_write u.uio_rw) sv s
    let blank = (do
      assert (not (is_write u.uio_rw))
      (result1, u1) ← uiomovezeros mem vmspace 512 u
      ok (result1, sv1, u1, s1))
    elim result [
      | err e ↦ ok (some e, sv1, u, s1)
      | got diskblock ↦ if diskblock == 0 then blank else block_transfer diskblock sv1 u s1
    ]

  -- The loop of sfs_io over whole blocks.
  unfoldable pub blocks_loop : ℕ → SfsVnode → Uio → Sfs → Run (Code × SfsVnode × Uio × Sfs)
  blocks_loop zero sv u s = ok (none, sv, u, s)
  blocks_loop (suc nblocks) sv u s = do
    (result, sv1, u1, s1) ← blockio sv u s
    elim result [ some e ↦ ok (some e, sv1, u1, s1) | none ↦ blocks_loop nblocks sv1 u1 s1 ]

  -- sfs_io from the whole blocks on, up to `out`.
  unfoldable pub io_blocks : SfsVnode → Uio → Sfs → Run (Code × SfsVnode × Uio × Sfs)
  io_blocks sv u s = do
    assert (u.uio_offset % 512 == 0)
    (result, sv1, u1, s1) ← blocks_loop (u.uio_resid / 512) sv u s
    let part = partialio 0 u1.uio_resid sv1 u1 s1
    let tail = if ltb 0 u1.uio_resid then part else ok (none, sv1, u1, s1)
    let last = (do assert (ltb u1.uio_resid 512); tail)
    elim result [ some e ↦ ok (some e, sv1, u1, s1) | none ↦ last ]

  -- sfs_io from the leading partial block on, up to `out`.
  unfoldable pub io_body : SfsVnode → Uio → Sfs → Run (Code × SfsVnode × Uio × Sfs)
  io_body sv u s =
      let blkoff = u.uio_offset % 512 in
      let len = if ltb u.uio_resid (512 - blkoff) then u.uio_resid else 512 - blkoff in
      let rest : SfsVnode → Uio → Sfs → Run (Code × SfsVnode × Uio × Sfs) =
        λ sv1 u1 s1. if u1.uio_resid == 0 then ok (none, sv1, u1, s1) else io_blocks sv1 u1 s1 in
      let lead = (do
        (result, sv1, u1, s1) ← partialio blkoff len sv u s
        elim result [ some e ↦ ok (some e, sv1, u1, s1) | none ↦ rest sv1 u1 s1 ]) in
      if not (blkoff == 0) then lead else rest sv u s

  -- sfs_io from `out` on.
  unfoldable pub io_out : ℕ → Code → SfsVnode → Uio → Sfs → Run (Code × SfsVnode × Uio × Sfs)
  io_out extraresid result sv u s =
      let u1 : Uio = record u { uio_resid = u.uio_resid + extraresid } in
      let longer : SfsVnode = record sv {
        sv_i = record (sv.sv_i) { sfi_size = u.uio_offset };
        sv_dirty = true;
      } in
      if is_write u.uio_rw && off_lt sv.sv_i.sfi_size u.uio_offset
      then ok (result, longer, u1, s)
      else ok (result, sv, u1, s)

  -- sfs_io
  unfoldable pub io : SfsVnode → Uio → Sfs → Run (Code × SfsVnode × Uio × Sfs)
  io sv u s =
      let size = sv.sv_i.sfi_size in
      let endpos = (u.uio_offset + u.uio_resid) % 2 ^ 32 in
      let extraresid = (endpos + 2 ^ 32 - size) % 2 ^ 32 in
      let whole = (do (result, sv1, u1, s1) ← io_body sv u s; io_out 0 result sv1 u1 s1) in
      let cut = (do
        assert (ltb extraresid u.uio_resid)
        (result, sv1, u1, s1) ← io_body sv (record u { uio_resid = u.uio_resid - extraresid }) s
        io_out extraresid result sv1 u1 s1) in
      if is_write u.uio_rw
      then whole
      else if not (off_lt u.uio_offset size)
      then ok (none, sv, u, s)
      else if off_lt size endpos
      then cut
      else whole
