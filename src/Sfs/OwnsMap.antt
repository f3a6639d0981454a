-- ===== src/Sfs/OwnsMap.antt =====
-- os161/kern/fs/sfs/sfs_vnode.c: the blocks a file has to itself, and its map.
use azurespider.Prelude.{ℕ, ◌≡◌, ◌≢◌, refl, sym, List, length, arith}
use azurespider.Sfs.{Sfs, SfsVnode, put_block}
use azurespider.Sfs.Words.{words_of}
use azurespider.Sfs.Mapping.{block_of, Mapped}
use azurespider.Sfs.Owns.{Owns, Freed}

pub Mapped-Owns :
    (s : Sfs) (sv : SfsVnode) → Mapped s sv → Owns s (block_of s sv) sv.sv_i.sfi_indirect
Mapped-Owns s sv m = record {
  fs = m.fs;
  indirect = λ ne. let (lt, used, len) = m.nindirect ne in (lt, used);
  used = m.used;
  apart = m.apart;
  apart_indirect = m.apart_indirect;
}

pub Owns-Mapped :
    (s : Sfs) (sv : SfsVnode)
    → length sv.sv_i.sfi_direct ≡ 15
    → (sv.sv_i.sfi_indirect ≢ 0 → length (words_of (s.blocks sv.sv_i.sfi_indirect)) ≡ 128)
    → Owns s (block_of s sv) sv.sv_i.sfi_indirect
    → Mapped s sv
Owns-Mapped s sv len words o = record {
  fs = o.fs;
  ndirect = len;
  nindirect = λ ne. let (lt, used) = o.indirect ne in (lt, used, words ne);
  used = o.used;
  apart = o.apart;
  apart_indirect = o.apart_indirect;
}

-- The blocks of the file stay when its indirect block is freed.
pub Owns-drop : (s s' : Sfs) (f : ℕ → ℕ) (i : ℕ) → Owns s f i → Freed s s' i → i ≢ 0 → Owns s' f 0
Owns-drop s s' f i o d ne = record {
  fs = d.fs;
  indirect = λ z. absurd (z refl);
  used = λ k lk live.
      let (lt, used) = o.used k lk live in
      let other : i ≢ f k = λ e. live (o.apart_indirect k lk (sym e)) in
      (omega (arith, lt, d.same_nblocks), ground (arith, d.bits (f k), used, other));
  apart = o.apart;
  apart_indirect = λ k lk e. e;
}

pub Owns-counted :
    (s : Sfs) (n : ℕ) (f : ℕ → ℕ) (i : ℕ) → Owns s f i → Owns (record s { ios = n }) f i
Owns-counted s n f i o = record {
  fs = record {
    map = o.fs.map;
    covers = o.fs.covers;
    beyond = o.fs.beyond;
    super_used = o.fs.super_used;
  };
  indirect = o.indirect;
  used = o.used;
  apart = o.apart;
  apart_indirect = o.apart_indirect;
}

pub Owns-written :
    (s : Sfs) (n b : ℕ) (bytes : List ℕ) (f : ℕ → ℕ) (i : ℕ)
    → Owns s f i
    → Owns (put_block (record s { ios = n }) b bytes) f i
Owns-written s n b bytes f i o = record {
  fs = record {
    map = o.fs.map;
    covers = o.fs.covers;
    beyond = o.fs.beyond;
    super_used = o.fs.super_used;
  };
  indirect = o.indirect;
  used = o.used;
  apart = o.apart;
  apart_indirect = o.apart_indirect;
}
