-- ===== src/Sfs/Shorten.antt =====
-- os161/kern/fs/sfs/sfs_vnode.c: what sfs_truncate does to the map of a file.
use azurespider.Prelude.{
  ℕ, ◌-◌, ◌≤◌, ◌<◌, ◌≡◌, ◌≢◌, ◌⊎◌, Bool, true, false, List, ltb, leb, ◌==◌, if◌then◌else◌, get_or,
  length, Run, ok, none, some,
}
use azurespider.Errno.{Errno, Code}
use azurespider.Sfs.{Device, Sfs, SfsVnode}
use azurespider.Sfs.Words.{words_of}
use azurespider.Sfs.Blocks.{in_use, FsValid}
use azurespider.Sfs.Mapping.{block_of, Mapped}
use azurespider.Sfs.Owns.{Owns}
use azurespider.Sfs.Cut.{file, Trimmed}

-- Whether block k stays when a file is cut to n blocks: one block behind the direct ones stays too long.
abbrev pub stays : ℕ → ℕ → Bool
stays n k = if ltb k 15 then ltb k n else leb k n

-- sfs_truncate fails, and the size is as it was, or the file has the new size and exactly the blocks
-- that stay, the others are free, and nothing but the indirect block is written.
abbrev pub Shortened : Sfs → SfsVnode → ℕ → ℕ → Run (Code × SfsVnode × Sfs) → Type 0
Shortened s sv len n m =
    ((e : Errno) × (sv' : SfsVnode) × (s' : Sfs) × (m ≡ ok (some e, sv', s'))
      × (sv'.sv_i.sfi_size ≡ sv.sv_i.sfi_size)
      × FsValid s'
      × (s'.blocks ≡ s.blocks)
      × ((b : ℕ) → in_use s b ≡ false → in_use s' b ≡ false))
    ⊎ ((sv' : SfsVnode) × (s' : Sfs) × (m ≡ ok (none, sv', s'))
        × (sv'.sv_i.sfi_size ≡ len)
        × Mapped s' sv'
        × ((k : ℕ) → k < 143 → block_of s' sv' k ≡ (if stays n k then block_of s sv k else 0))
        × ((k : ℕ)
            → k < 143
            → stays n k ≡ false
            → block_of s sv k ≢ 0
            → in_use s' (block_of s sv k) ≡ false)
        × ((b : ℕ) → b ≢ sv.sv_i.sfi_indirect → s'.blocks b ≡ s.blocks b)
        × ((b : ℕ) → in_use s b ≡ false → in_use s' b ≡ false))

-- The blocks behind the direct ones.
abbrev behind : Sfs → ℕ → ℕ → ℕ
behind s i k = if i == 0 then 0 else get_or (words_of (s.blocks i)) (k - 15) 0

-- After the first loop of sfs_truncate.
module _ (dev : Device) (len n : ℕ) (sv : SfsVnode) (s : Sfs) (m : Mapped s sv) (d : List ℕ)
    (s1 : Sfs) (len_d : length d ≡ 15)
    (o1 : Owns s1 (file d (behind s sv.sv_i.sfi_indirect)) sv.sv_i.sfi_indirect) (t1 : Trimmed s s1)
    (map1 : (j : ℕ) → get_or d j 0 ≡ (if leb n j then 0 else get_or sv.sv_i.sfi_direct j 0))
    (freed1 : (j : ℕ)
      → j < 15
      → n ≤ j
      → get_or sv.sv_i.sfi_direct j 0 ≢ 0
      → in_use s1 (get_or sv.sv_i.sfi_direct j 0) ≡ false) where
  abbrev new : ℕ → SfsVnode
  new i = record sv {
    sv_i = record (sv.sv_i) { sfi_size = len; sfi_direct = d; sfi_indirect = i };
    sv_dirty = true;
  }

  -- The words of the indirect block.
  abbrev idwords : List ℕ
  idwords = words_of (s1.blocks sv.sv_i.sfi_indirect)
