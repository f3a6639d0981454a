-- ===== src/Sfs.antt =====
-- os161/kern/fs/sfs: the simple file system, with include/sfs.h and include/kern/sfs.h. A u_int32_t
-- is a number below 2^32. The device is the argument `dev`: dev n b is what d_io does when it is
-- called for the n-th time, for block b. A d_io that fails leaves the block on the device as it was,
-- and may have moved bytes of the uio: a write of lhd_io that the disk refuses has moved all of them.
pub mod Words
pub mod Blocks
pub mod Mapping
pub mod Direct
pub mod Entry
pub mod Bmap
pub mod Truncate
pub mod Owns
pub mod Cut
pub mod Entries
pub mod OwnsMap
pub mod Shorten
pub mod Io
pub mod Look
pub mod ReadBlock
pub mod ReadBody
pub mod ReadPast
pub mod Read
pub mod Bytes
pub mod WriteBytes
pub mod WriteBlock
pub mod Write
pub mod WriteFile
pub mod Dir
pub mod Find
mod Tests
use azurespider.Prelude.{
  ℕ, zero, suc, ◌+◌, ◌-◌, ◌/◌, ◌%◌, Bool, true, false, not, ◌&&◌, Option, none, some, List, ltb,
  leb, ◌==◌, if◌then◌else◌, get_or, set, replicate, Run, ok, panic, ◌>>=◌, ◌>>◌, assert,
}
use azurespider.Errno.{Errno, einval, eio, Code, Answer, err, got}
use azurespider.Bitmap
use azurespider.Bitmap.{Bitmap}
use azurespider.Sfs.Words.{words_of, bytes_of}

-- struct sfs_inode. `sfi_direct` has SFS_NDIRECT = 15 entries.
pub record Inode : Type 0 where
  pub sfi_size : ℕ
  pub sfi_type : ℕ
  pub sfi_linkcount : ℕ
  pub sfi_direct : List ℕ
  pub sfi_indirect : ℕ

-- struct sfs_vnode, less the abstract vnode in it.
pub record SfsVnode : Type 0 where
  pub sv_i : Inode
  pub sv_ino : ℕ
  pub sv_dirty : Bool

-- struct sfs_fs: sp_nblocks of its superblock, the free map, and what is on the device, as bytes.
-- `ios` counts the calls of d_io.
pub record Sfs : Type 0 where
  pub sp_nblocks : ℕ
  pub sfs_freemap : Bitmap
  pub sfs_freemapdirty : Bool
  pub blocks : ℕ → List ℕ
  pub ios : ℕ

-- Results of d_io that sfs_rwblock asks for.
abbrev is_einval : Errno → Bool
is_einval einval = true
is_einval e = false

abbrev is_eio : Errno → Bool
is_eio eio = true
is_eio e = false

abbrev pub put_block : Sfs → ℕ → List ℕ → Sfs
put_block s block bytes = record s { blocks = λ b. if block == b then bytes else s.blocks b }

-- What a d_io of one block does with a uio that is not used up: it succeeds, or it fails after it has
-- moved some of the bytes.
pub data DeviceIo : Type 0 where
  done : DeviceIo
  failed : Errno → ℕ → DeviceIo

abbrev pub Device : Type 0
Device = ℕ → ℕ → DeviceIo

abbrev pub outcome : DeviceIo → Code × ℕ
outcome done = (none, 0)
outcome (failed e moved) = (some e, moved)

module _ (dev : Device) where
  -- sfs_device->d_io on the uio of a transfer of `block`, of which an earlier d_io has moved `moved`
  -- bytes: what it returns, and how many bytes of the uio are moved then. The call on a uio that is
  -- used up moves nothing and returns 0, as in lhd_io. Only a write uses its uio up and fails.
  pub d_io : Bool → ℕ → ℕ → Sfs → Code × ℕ
  d_io write block moved s =
      if write && leb 512 moved then (none, moved) else outcome (dev s.ios block)

  -- sfs_rwblock, with `left` retries left after an EIO, all with the same uio, less the transfer. It
  -- returns also the bytes of the uio that a d_io which failed has moved.
  pub rwblock : Bool → ℕ → ℕ → ℕ → Sfs → Run (Code × ℕ × Sfs)
  rwblock write zero block moved s =
      let r = d_io write block moved s in
      elim r.0 [
        | none ↦ ok (none, r.1, record s { ios = s.ios + 1 })
        | some e ↦ if is_einval e then panic else ok (some e, r.1, record s { ios = s.ios + 1 })
      ]
  rwblock write (suc left) block moved s =
      let r = d_io write block moved s in
      let retry = rwblock write left block r.1 (record s { ios = s.ios + 1 }) in
      elim r.0 [
        | none ↦ ok (none, r.1, record s { ios = s.ios + 1 })
        | some e ↦
            if is_einval e
            then panic
            else if is_eio e
            then retry
            else ok (some e, r.1, record s { ios = s.ios + 1 })
      ]

  -- sfs_rblock and sfs_wblock, with the transfer of a d_io that succeeds. A write that succeeds on a
  -- uio which is used up leaves the block as it was.
  pub rblock : ℕ → Sfs → Run (Answer (List ℕ) × Sfs)
  rblock block s = do
    (result, moved, s1) ← rwblock false 10 block 0 s
    elim result [ some e ↦ ok (err e, s1) | none ↦ ok (got (s1.blocks block), s1) ]

  pub wblock : List ℕ → ℕ → Sfs → Run (Code × Sfs)
  wblock bytes block s = do
    (result, moved, s1) ← rwblock true 10 block 0 s
    elim result [
      | some e ↦ ok (some e, s1)
      | none ↦ if leb 512 moved then ok (none, s1) else ok (none, put_block s1 block bytes)
    ]

  -- sfs_clearblock
  pub clearblock : ℕ → Sfs → Run (Code × Sfs)
  clearblock = wblock (replicate 512 0)

  -- sfs_balloc
  pub balloc : Sfs → Run (Answer ℕ × Sfs)
  balloc s = do
    (result, diskblock, freemap) ← Bitmap.alloc s.sfs_freemap
    elim result [
      | some e ↦ ok (err e, record s { sfs_freemap = freemap })
      | none ↦ (do
        assert (not (leb s.sp_nblocks diskblock))
        (cleared, s1) ←
            clearblock diskblock (record s { sfs_freemap = freemap; sfs_freemapdirty = true })
        elim cleared [ some e ↦ ok (err e, s1) | none ↦ ok (got diskblock, s1) ])
    ]

  -- sfs_bfree
  pub bfree : ℕ → Sfs → Run Sfs
  bfree diskblock s = do
    freemap ← Bitmap.unmark s.sfs_freemap diskblock
    ok (record s { sfs_freemap = freemap; sfs_freemapdirty = true })

  -- sfs_bused
  pub bused : ℕ → Sfs → Run Bool
  bused diskblock s =
      if leb s.sp_nblocks diskblock then panic else Bitmap.isset s.sfs_freemap diskblock

  -- The end of sfs_bmap: the check that the block is marked in use.
  pub hand_back : ℕ → SfsVnode → Sfs → Run (Answer ℕ × SfsVnode × Sfs)
  hand_back block sv s =
      let checked = (do used ← bused block s; assert used; ok (got block, sv, s)) in
      if block == 0 then ok (got 0, sv, s) else checked

  -- The allocation of a block in sfs_bmap, kept by `keep`, or the block that is there.
  pub alloc_or_keep :
      ℕ
      → Bool
      → SfsVnode
      → Sfs
      → (ℕ → Sfs → Run (Answer ℕ × SfsVnode × Sfs))
      → Run (Answer ℕ × SfsVnode × Sfs)
  alloc_or_keep block doalloc sv s keep =
      let fresh = (do
        (result, s1) ← balloc s
        elim result [ err e ↦ ok (err e, sv, s1) | got b ↦ keep b s1 ]) in
      if block == 0 && doalloc then fresh else hand_back block sv s

  -- sfs_bmap on a direct block.
  pub bmap_direct : ℕ → Bool → SfsVnode → Sfs → Run (Answer ℕ × SfsVnode × Sfs)
  bmap_direct fileblock doalloc sv s =
      alloc_or_keep (get_or sv.sv_i.sfi_direct fileblock 0) doalloc sv s λ b s1.
        hand_back b
          (record sv {
            sv_i = record (sv.sv_i) { sfi_direct = set sv.sv_i.sfi_direct fileblock b };
            sv_dirty = true;
          })
          s1

  -- sfs_bmap on entry `idoff` of the indirect block `idblock` with the words `idbuf`.
  pub bmap_entry : ℕ → ℕ → List ℕ → Bool → SfsVnode → Sfs → Run (Answer ℕ × SfsVnode × Sfs)
  bmap_entry idblock idoff idbuf doalloc sv s =
      alloc_or_keep (get_or idbuf idoff 0) doalloc sv s λ b s1. (do
        (result, s2) ← wblock (bytes_of (set idbuf idoff b)) idblock s1
        elim result [ some e ↦ ok (err e, sv, s2) | none ↦ hand_back b sv s2 ])

  -- sfs_bmap on the entry `idoff` of the indirect block.
  pub bmap_indirect : ℕ → Bool → SfsVnode → Sfs → Run (Answer ℕ × SfsVnode × Sfs)
  bmap_indirect idoff doalloc sv s =
      let fresh = (do
        (result, s1) ← balloc s
        elim result [
          | err e ↦ ok (err e, sv, s1)
          | got idblock ↦
              bmap_entry idblock idoff (replicate 128 0) doalloc
                (record sv { sv_i = record (sv.sv_i) { sfi_indirect = idblock }; sv_dirty = true })
                s1
        ]) in
      let load = (do
        (result, s1) ← rblock sv.sv_i.sfi_indirect s
        elim result [
          | err e ↦ ok (err e, sv, s1)
          | got idbuf ↦ bmap_entry sv.sv_i.sfi_indirect idoff (words_of idbuf) doalloc sv s1
        ]) in
      if sv.sv_i.sfi_indirect == 0 then (if doalloc then fresh else ok (got 0, sv, s)) else load

  -- sfs_bmap
  pub bmap : ℕ → Bool → SfsVnode → Sfs → Run (Answer ℕ × SfsVnode × Sfs)
  bmap fileblock doalloc sv s =
      if ltb fileblock 15
      then bmap_direct fileblock doalloc sv s
      else if ltb 0 ((fileblock - 15) / 128)
      then ok (err einval, sv, s)
      else bmap_indirect ((fileblock - 15) % 128) doalloc sv s
