-- ===== src/Sfs/Truncate.antt =====
-- os161/kern/fs/sfs/sfs_vnode.c: sfs_truncate. `len` is an off_t that is not negative, and
-- DIVROUNDUP of it does not overflow.
use azurespider.Prelude.{
  ℕ, zero, suc, ◌+◌, ◌-◌, ◌/◌, Bool, true, false, not, ◌&&◌, ◌||◌, none, some, List, ltb, leb, ◌==◌,
  if◌then◌else◌, get_or, set, Run, ok, ◌>>=◌,
}
use azurespider.Errno.{Code, err, got}
use azurespider.Sfs.{Device, Sfs, SfsVnode, rblock, wblock, bfree}
use azurespider.Sfs.Words.{words_of, bytes_of}

-- DIVROUNDUP(len, SFS_BLOCKSIZE)
abbrev pub blocks_for : ℕ → ℕ
blocks_for len = (len + 512 - 1) / 512

abbrev pub with_entry : SfsVnode → ℕ → ℕ → SfsVnode
with_entry sv i b = record sv {
  sv_i = record (sv.sv_i) { sfi_direct = set sv.sv_i.sfi_direct i b };
  sv_dirty = true;
}

module _ (dev : Device) where
  -- The loop of sfs_truncate over the direct blocks, from i on.
  unfoldable pub free_direct : ℕ → ℕ → ℕ → SfsVnode → Sfs → Run (SfsVnode × Sfs)
  free_direct zero i blocklen sv s = ok (sv, s)
  free_direct (suc rounds) i blocklen sv s =
      let block = get_or sv.sv_i.sfi_direct i 0 in
      let discard = (do
        s' ← bfree dev block s
        free_direct rounds (i + 1) blocklen (with_entry sv i 0) s') in
      let keep = free_direct rounds (i + 1) blocklen sv s in
      if leb blocklen i && not (block == 0) then discard else keep

  -- The loop over the entries of the indirect block, from j on, with `hasnonzero` and `iddirty`.
  unfoldable pub free_entries :
      ℕ → ℕ → ℕ → List ℕ → Bool → Bool → Sfs → Run (List ℕ × Bool × Bool × Sfs)
  free_entries zero j blocklen idbuf hasnonzero iddirty s = ok (idbuf, hasnonzero, iddirty, s)
  free_entries (suc rounds) j blocklen idbuf hasnonzero iddirty s =
      let block = get_or idbuf j 0 in
      let discard = (do
        s' ← bfree dev block s
        free_entries rounds (j + 1) blocklen (set idbuf j 0) hasnonzero true s') in
      let keep =
        free_entries rounds (j + 1) blocklen idbuf (hasnonzero || not (block == 0)) iddirty s in
      if ltb blocklen (15 + j) && not (block == 0) then discard else keep

  -- The end of sfs_truncate.
  abbrev pub resize : ℕ → SfsVnode → Sfs → Run (Code × SfsVnode × Sfs)
  resize len sv s =
      ok (none, record sv { sv_i = record (sv.sv_i) { sfi_size = len }; sv_dirty = true }, s)

  -- What sfs_truncate does with the indirect block after the loop over it.
  unfoldable pub put_indirect :
      ℕ → List ℕ → Bool → Bool → SfsVnode → Sfs → Run (Code × SfsVnode × Sfs)
  put_indirect len idbuf hasnonzero iddirty sv s =
      let discard = (do
        s1 ← bfree dev sv.sv_i.sfi_indirect s
        resize len (record sv { sv_i = record (sv.sv_i) { sfi_indirect = 0 }; sv_dirty = true })
            s1) in
      let save = (do
        (result, s1) ← wblock dev (bytes_of idbuf) sv.sv_i.sfi_indirect s
        elim result [ some e ↦ ok (some e, sv, s1) | none ↦ resize len sv s1 ]) in
      if not hasnonzero then discard else if iddirty then save else resize len sv s

  -- sfs_truncate from the indirect block on.
  unfoldable pub cut_indirect : ℕ → ℕ → SfsVnode → Sfs → Run (Code × SfsVnode × Sfs)
  cut_indirect len blocklen sv s =
      let cut = (do
        (result, s1) ← rblock dev sv.sv_i.sfi_indirect s
        elim result [
          | err e ↦ ok (some e, sv, s1)
          | got bytes ↦ (do
            (idbuf, hasnonzero, iddirty, s2) ←
                free_entries 128 0 blocklen (words_of bytes) false false s1
            put_indirect len idbuf hasnonzero iddirty sv s2)
        ]) in
      if ltb blocklen 142 && not (sv.sv_i.sfi_indirect == 0) then cut else resize len sv s

  -- sfs_truncate
  unfoldable pub truncate : ℕ → SfsVnode → Sfs → Run (Code × SfsVnode × Sfs)
  truncate len sv s = do
    (sv1, s1) ← free_direct 15 0 (blocks_for len) sv s
    cut_indirect len (blocks_for len) sv1 s1
