-- ===== src/Sfs/Tests.antt =====
-- os161/kern/fs/sfs: runs of the file system, and its theorems at a concrete one.
use azurespider.Prelude.{
  ◌≤◌, List, ◌+◌, ◌⊎◌, some, max, ◌*◌, ℕ_discrete, if_ne, ℕ, zero, suc, ◌-◌, ◌<◌, ◌≡◌, refl, ap,
  ◌∙◌, true, false, [], ◌∷◌, ltb, ◌==◌, if◌then◌else◌, get_or, length, replicate, arith, ok, none,
}
use azurespider.Errno.{err, got, eio, Errno}
use azurespider.Bitmap.{Bitmap, word_isset}
use azurespider.Bitmap.Bits.{IsValid, word_at}
use azurespider.Uio.Copy.{UserMemory}
use azurespider.Uio.{Uio, UioRw, uio_write, uio_sysspace}
use azurespider.Uio.Move.{Ready}
use azurespider.Uio.Span.{span}
use azurespider.Sfs.Look.{byte_at}
use azurespider.Sfs.Dir.{
  dir_unlink, readdir-dir_unlink, readdir, writedir, SlotReads, readdir-writedir,
}
use azurespider.Sfs.Find.{c_string, same_string, sfd_ino, sfd_name, is_free, has_name}
use azurespider.Sfs.Io.{io}
use azurespider.Sfs.WriteFile.{Written, io_write_lem}
use azurespider.Sfs.{
  balloc, Device, done, failed, wblock, rwblock, d_io, put_block, Sfs, SfsVnode, bmap,
}
use azurespider.Sfs.Words.{length-bytes_of, get_or-zeros, words_of, bytes_of, words_of-bytes_of}
use azurespider.Sfs.Blocks.{
  Extends, balloc_lem, Rewinds, Retries, IsSized, in_use, FsValid, Accepts,
}
use azurespider.Sfs.Mapping.{block_of, Mapped}
use azurespider.Sfs.Direct.{Filled}
use azurespider.Sfs.Bmap.{bmap_lem}

-- A device whose first d_io returns EIO, and leaves the uio as it was.
abbrev flaky : Device
flaky zero b = failed eio 0
flaky (suc n) b = done

-- A device whose first d_io returns EIO, and has used up the uio.
abbrev consuming : Device
consuming zero b = failed eio 512
consuming (suc n) b = done

-- Blocks 0 to 9 of 24 are in use.
abbrev freemap : Bitmap
freemap = record { nbits = 24; v = 0xff ∷ 0x03 ∷ 0 ∷ [] }

-- A file with the direct blocks 5 and 6, and 8 and 9 in the indirect block 7.
abbrev disk : Sfs
disk = record {
  sp_nblocks = 24;
  sfs_freemap = freemap;
  sfs_freemapdirty = false;
  blocks = λ b.
      if b == 7
      then bytes_of (8 ∷ 9 ∷ replicate 126 0)
      else if b == 5
      then bytes_of (4 ∷ 0x61000000 ∷ replicate 126 0)
      else replicate 512 0;
  ios = 0;
}

abbrev text : SfsVnode
text = record {
  sv_i = record {
    sfi_size = 8704;
    sfi_type = 1;
    sfi_linkcount = 1;
    sfi_direct = 5 ∷ 6 ∷ replicate 13 0;
    sfi_indirect = 7;
  };
  sv_ino = 4;
  sv_dirty = false;
}

freemap-bytes : (k : ℕ) → word_at freemap k < 256
freemap-bytes zero = omega arith
freemap-bytes (suc zero) = omega arith
freemap-bytes (suc (suc zero)) = omega arith
freemap-bytes (suc (suc (suc k))) = omega arith

freemap-IsValid : IsValid freemap
freemap-IsValid = record {
  small = omega arith;
  room = omega arith;
  bytes = freemap-bytes;
  leftover = λ i past within. absurd (omega (arith, past, within));
}

disk-FsValid : FsValid disk
unfolding word_isset
disk-FsValid = record {
  map = freemap-IsValid;
  covers = omega arith;
  beyond = λ b past within. absurd (omega (arith, past, within));
  super_used = refl;
}

two_then_zeros :
    (a b n k : ℕ)
    → get_or (a ∷ b ∷ replicate n 0) k 0 ≡ (if k == 0 then a else if k == 1 then b else 0)
two_then_zeros a b n zero = refl
two_then_zeros a b n (suc zero) = refl
two_then_zeros a b n (suc (suc k)) = get_or-zeros n k ∙ ground arith

disk_words : words_of (disk.blocks 7) ≡ 8 ∷ 9 ∷ replicate 126 0
disk_words = words_of-bytes_of (8 ∷ 9 ∷ replicate 126 0)

merge :
    (k a b : ℕ)
    → a ≡ (if k == 0 then 5 else if k == 1 then 6 else 0)
    → b ≡ (if k - 15 == 0 then 8 else if k - 15 == 1 then 9 else 0)
    → (if ltb k 15 then a else b) ≡ (
        if k == 0 then 5 else if k == 1 then 6 else if k == 15 then 8 else if k == 16 then 9 else 0)
merge k a b e f = ground (arith, e, f)

text_blocks :
    (k : ℕ)
    → block_of disk text k ≡ (
        if k == 0 then 5 else if k == 1 then 6 else if k == 15 then 8 else if k == 16 then 9 else 0)
text_blocks k =
    merge k (get_or text.sv_i.sfi_direct k 0) (get_or (words_of (disk.blocks 7)) (k - 15) 0)
      (two_then_zeros 5 6 13 k)
      (ap (λ ws. get_or ws (k - 15) 0) disk_words ∙ two_then_zeros 8 9 126 (k - 15))

low_used : (b : ℕ) → b < 10 → in_use disk b ≡ true
unfolding word_isset
low_used zero h = refl
low_used (suc zero) h = refl
low_used (suc (suc zero)) h = refl
low_used (suc (suc (suc zero))) h = refl
low_used (suc (suc (suc (suc zero)))) h = refl
low_used (suc (suc (suc (suc (suc zero))))) h = refl
low_used (suc (suc (suc (suc (suc (suc zero)))))) h = refl
low_used (suc (suc (suc (suc (suc (suc (suc zero))))))) h = refl
low_used (suc (suc (suc (suc (suc (suc (suc (suc zero)))))))) h = refl
low_used (suc (suc (suc (suc (suc (suc (suc (suc (suc zero))))))))) h = refl
low_used (suc (suc (suc (suc (suc (suc (suc (suc (suc (suc b)))))))))) h = absurd (omega (arith, h))

text-Mapped : Mapped disk text
text-Mapped = record {
  fs = disk-FsValid;
  ndirect = refl;
  nindirect = λ there. (omega arith, low_used 7 (omega arith), ap length disk_words);
  used = λ k lk ne.
      let lt : block_of disk text k < 10 = ground (arith, text_blocks k) in
      (omega (arith, lt), low_used (block_of disk text k) lt);
  apart = λ j k lj lk ne e. ground (arith, text_blocks j, text_blocks k, ne, e);
  apart_indirect = λ k lk e. ground (arith, text_blocks k, e);
}

flaky-Accepts : Accepts flaky 24
flaky-Accepts zero b e moved lt h = λ z. cc
flaky-Accepts (suc n) b e moved lt h = cc

flaky-Rewinds : Rewinds flaky 24
flaky-Rewinds zero b moved lt h = ground (arith, h)
flaky-Rewinds (suc n) b moved lt h = cc

flaky-Retries : Retries flaky 24
flaky-Retries = (flaky-Accepts, flaky-Rewinds)

-- The write that is retried reports success; on the second device nothing is written.
retried_write : wblock flaky [] 5 disk ≡ ok (none, put_block (record disk { ios = 2 }) 5 [])
unfolding wblock rwblock d_io
retried_write = refl

lost_write : wblock consuming [] 5 disk ≡ ok (none, record disk { ios = 2 })
unfolding wblock rwblock d_io
lost_write = refl

balloc_lem_example :
    ((e : Errno) × (s' : Sfs) × (balloc flaky disk ≡ ok (err e, s')) × Extends disk s')
    ⊎ ((b : ℕ) × (s' : Sfs) × (balloc flaky disk ≡ ok (got b, s'))
        × Extends disk s'
        × (b < 24)
        × (0 < b)
        × (in_use disk b ≡ false)
        × (in_use s' b ≡ true)
        × (s'.blocks b ≡ replicate 512 0))
balloc_lem_example = balloc_lem flaky disk flaky-Retries disk-FsValid

bmap_lem_example : Filled disk text 20 true (bmap flaky 20 true text disk)
bmap_lem_example = bmap_lem flaky 20 true text disk flaky-Retries text-Mapped (omega arith)

disk-IsSized : IsSized disk
disk-IsSized b = elim (ℕ_discrete b 7) [
  | yes e ↦ ap (λ c. length (disk.blocks c)) e ∙ length-bytes_of (8 ∷ 9 ∷ replicate 126 0)
  | no ne ↦ elim (ℕ_discrete b 5) [
    | yes e ↦
        ap (λ c. length (disk.blocks c)) e ∙ length-bytes_of (4 ∷ 0x61000000 ∷ replicate 126 0)
    | no other ↦ ap length (
        if_ne b 7 (bytes_of (8 ∷ 9 ∷ replicate 126 0))
          (if b == 5 then bytes_of (4 ∷ 0x61000000 ∷ replicate 126 0) else replicate 512 0) ne
        ∙ if_ne b 5 (bytes_of (4 ∷ 0x61000000 ∷ replicate 126 0)) (replicate 512 0) other)
  ]
]

-- 600 bytes from offset 500 on, and a buffer of the kernel.
abbrev transfer_of : UioRw → Uio
transfer_of rw = record {
  iov_base = 4096;
  iov = replicate 600 1;
  moved = [];
  uio_offset = 500;
  uio_resid = 600;
  uio_segflg = uio_sysspace;
  uio_rw = rw;
  uio_space = 0;
}

abbrev no_faults : UserMemory
no_faults = record { faults = λ base size. false; reached = λ base size. 0 }

transfer_of-Ready : (rw : UioRw) → Ready 1 (transfer_of rw)
transfer_of-Ready rw = record { small = omega arith; room = omega arith; space = refl }

io_write_lem_example :
    Written text disk
      (transfer_of uio_write)
      (io flaky no_faults 1 text (transfer_of uio_write) disk)
io_write_lem_example =
    io_write_lem flaky no_faults 1 text disk (transfer_of uio_write) flaky-Retries text-Mapped
      disk-IsSized (transfer_of-Ready uio_write) refl (omega arith) (omega arith)

-- The same blocks as a directory of two slots: inode 4 under the name "a", and a free slot.
abbrev directory : SfsVnode
directory = record text { sv_i = record (text.sv_i) { sfi_size = 128; sfi_type = 2 } }

directory-Mapped : Mapped disk directory
directory-Mapped = record {
  fs = disk-FsValid;
  ndirect = refl;
  nindirect = text-Mapped.nindirect;
  used = text-Mapped.used;
  apart = text-Mapped.apart;
  apart_indirect = text-Mapped.apart_indirect;
}

first_named : has_name (97 ∷ []) (span (byte_at disk directory) (0 * 64) 64) ≡ true
unfolding has_name is_free sfd_ino sfd_name c_string same_string words_of bytes_of
first_named = refl

readdir-writedir_example :
    ((e : Errno) × (sv' : SfsVnode) × (s' : Sfs) × (writedir flaky no_faults 1 4096
          (replicate 64 65)
          1
          directory
          disk
        ≡ ok (some e, sv', s'))
      × Mapped s' sv')
    ⊎ ((sv' : SfsVnode) × (s' : Sfs) × (writedir flaky no_faults 1 4096
            (replicate 64 65)
            1
            directory
            disk
          ≡ ok (none, sv', s'))
        × Mapped s' sv'
        × (sv'.sv_i.sfi_size ≡ max 128 (1 * 64 + 64))
        × ((k : ℕ) (old : List ℕ)
            → length old ≡ 64
            → k * 64 + 64 ≤ sv'.sv_i.sfi_size
            → SlotReads flaky no_faults 1 4096 sv' s'
                (if k == 1 then replicate 64 65 else span (byte_at disk directory) (k * 64) 64)
                (readdir flaky no_faults 1 4096 old k sv' s')))
readdir-writedir_example =
    readdir-writedir flaky no_faults 1 4096 (replicate 64 65) 1 directory disk flaky-Retries
      directory-Mapped disk-IsSized refl (omega arith) (omega arith)

readdir-dir_unlink_example :
    ((e : Errno) × (sv' : SfsVnode) × (s' : Sfs) × (dir_unlink flaky no_faults 1 4096 0 directory
          disk
        ≡ ok (some e, sv', s'))
      × Mapped s' sv')
    ⊎ ((sv' : SfsVnode) × (s' : Sfs) × (dir_unlink flaky no_faults 1 4096 0 directory disk
          ≡ ok (none, sv', s'))
        × Mapped s' sv'
        × (sv'.sv_i.sfi_size ≡ max 128 (0 * 64 + 64))
        × ((k : ℕ) (old : List ℕ)
            → length old ≡ 64
            → k * 64 + 64 ≤ sv'.sv_i.sfi_size
            → SlotReads flaky no_faults 1 4096 sv' s'
                (if k == 0 then replicate 64 0 else span (byte_at disk directory) (k * 64) 64)
                (readdir flaky no_faults 1 4096 old k sv' s')))
readdir-dir_unlink_example =
    readdir-dir_unlink flaky no_faults 1 4096 0 directory disk flaky-Retries directory-Mapped
      disk-IsSized (omega arith) (omega arith)
