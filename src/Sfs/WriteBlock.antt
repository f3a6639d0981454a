-- ===== src/Sfs/WriteBlock.antt =====
-- os161/kern/fs/sfs/sfs_vnode.c: writing a block of a file that sfs_bmap finds or allocates.
use azurespider.Prelude.{
  ℕ, ◌+◌, ◌-◌, ◌*◌, ◌/◌, ◌%◌, ◌^◌, ◌≤◌, ◌<◌, ◌≡◌, ◌≢◌, refl, sym, ap, subst, ◌∙◌, inl, inr, true,
  false, List, [], ◌++◌, leb, ◌==◌, if◌then◌else◌, if_self, get_or, arith, Run, ok, some,
  Option-cases, take, drop, length, length-take, ◌>>=◌,
}
use azurespider.Uio.Copy.{UserMemory}
use azurespider.Errno.{Code, err, got}
use azurespider.Uio.{Uio, uio_write, is_write, stored, interrupted}
use azurespider.Uio.Move.{Ready, Passed, Passed-refl, uiomove_lem}
use azurespider.Sfs.{Device, Sfs, SfsVnode, bmap}
use azurespider.Sfs.Blocks.{Retries, IsSized, rblock_lem, wblock_lem, rwblock-write}
use azurespider.Sfs.Mapping.{block_of, Mapped}
use azurespider.Sfs.Bmap.{bmap_lem}
use azurespider.Sfs.Look.{byte_at}
use azurespider.Sfs.Bytes.{
  Whole, byte_kept, byte_grown, put, put-Whole, patch, length-patch, get_or-patch, get_or-take,
}
use azurespider.Sfs.ReadBlock.{leb-true, landed, returned, returned-same_rw, landed-Passed}
use azurespider.Sfs.Io.{partial_move, partial_load, rwblock_uio, block_transfer}
use azurespider.Sfs.WriteBytes.{
  hit, Writes, then-Writes, nothing_after, counted-Whole, put_bytes, block_hit, eq_false,
}

module _ (dev : Device) (mem : UserMemory) (vmspace : ℕ) where
  pub write_loaded :
      (s : Sfs) (sv : SfsVnode) (u : Uio) (n : ℕ)
      → Retries dev s.sp_nblocks
      → Mapped s sv
      → IsSized s
      → Ready vmspace u
      → u.uio_rw ≡ uio_write
      → n ≤ u.uio_resid
      → u.uio_offset % 512 + n ≤ 512
      → u.uio_offset < 73216
      → block_of s sv (u.uio_offset / 512) ≢ 0
      → Writes sv s u n (
          partial_load dev mem vmspace
            (u.uio_offset % 512)
            n
            (block_of s sv (u.uio_offset / 512))
            sv
            u
            s)
  unfolding partial_load partial_move
  write_loaded s sv u n takes m sized r rd le fits lt there =
      let k = u.uio_offset / 512 in
      let skip = u.uio_offset % 512 in
      let b = block_of s sv k in
      let inside : k < 143 = omega (arith, lt) in
      let small = (m.used k inside there).0 in
      let here : (b == 0) ≡ false = eq_false b 0 there in
      let room : n ≤ length u.iov = omega (arith, le, r.room) in
      let write : is_write u.uio_rw ≡ true = ap is_write rd in
      elim (rblock_lem dev s takes.0 b small) [
        | inl (e, c, x) ↦ inl (
          e,
          sv,
          u,
          record s { ios = c },
          rw (here, x) refl,
          counted-Whole s sv c m sized,
          rd,
          λ j lj miss. refl,
        )
        | inr (c, x) ↦
            let s1 : Sfs = record s { ios = c } in
            let w1 = counted-Whole s sv c m sized in
            elim (uiomove_lem mem vmspace (drop skip (s.blocks b)) n u r le) [
              | inl (e, k1, y, short_, user) ↦ inl (
                e,
                sv,
                interrupted k1 (drop skip (s.blocks b)) u,
                s1,
                rw (here, x, y) refl,
                w1,
                rd,
                λ j lj miss. refl,
              )
              | inr (u', y, p) ↦
                  let new : List ℕ = patch skip n u.iov (s.blocks b) fits room (sized b) in
                  let part : take skip (s.blocks b)
                        ++ (stored u.uio_rw n (drop skip (s.blocks b)) u.iov
                            ++ drop n (drop skip (s.blocks b)))
                      ≡ new =
                    ap
                      (λ d.
                        take skip (s.blocks b)
                        ++ (stored d n (drop skip (s.blocks b)) u.iov
                            ++ drop n (drop skip (s.blocks b))))
                      rd in
                  let q : Passed u u' n [] =
                    subst (Passed u u' n)
                      (ap (λ w. if w then [] else take n (drop skip (s.blocks b))) write) p in
                  elim (wblock_lem dev s1 takes new b small) [
                    | inl (e, c2, z) ↦ inl (
                      e,
                      sv,
                      u',
                      record s { ios = c2 },
                      rw (here, x, y, write, part, z) refl,
                      counted-Whole s sv c2 m sized,
                      q.same_rw ∙ rd,
                      λ j lj miss. refl,
                    )
                    | inr (c2, z) ↦
                        let len = length-patch skip n u.iov (s.blocks b) fits room (sized b) in
                        inr (
                          sv,
                          u',
                          put s sv k c2 new m sized inside there len,
                          rw (here, x, y, write, part, z) refl,
                          put-Whole s sv k c2 new m sized inside there len,
                          q,
                          put_bytes s sv u k n c2 m sized inside there new len refl fits
                              (get_or-patch skip n u.iov (s.blocks b) fits room (sized b)),
                        )
                  ]
            ]
      ]

  -- The transfer between a uio and a block that is there.
  pub write_device :
      (s : Sfs) (sv : SfsVnode) (u : Uio)
      → Retries dev s.sp_nblocks
      → Mapped s sv
      → IsSized s
      → Ready vmspace u
      → u.uio_rw ≡ uio_write
      → 512 ≤ u.uio_resid
      → u.uio_offset % 512 ≡ 0
      → u.uio_offset < 73216
      → block_of s sv (u.uio_offset / 512) ≢ 0
      → Writes sv s u 512
          (block_transfer dev mem vmspace (block_of s sv (u.uio_offset / 512)) sv u s)
  unfolding block_transfer rwblock_uio
  write_device s sv u takes m sized r rd le aligned lt there =
      let k = u.uio_offset / 512 in
      let b = block_of s sv k in
      let inside : k < 143 = omega (arith, lt) in
      let write : is_write u.uio_rw ≡ true = ap is_write rd in
      let wide : leb 512 u.uio_resid ≡ true = leb-true 512 u.uio_resid le in
      let (result, left, c, x, z) = rwblock-write dev b s takes (m.used k inside there).0 in
      elim (Option-cases result) [
        | inr (e, failed) ↦ inl (
          e,
          sv,
          returned u (b * 512 % 2 ^ 32) left (s.blocks b),
          record s { ios = c },
          rw (wide, write, x ∙ ap (λ q. ok (q, left, record s { ios = c })) failed) refl,
          counted-Whole s sv c m sized,
          returned-same_rw u (b * 512 % 2 ^ 32) left (s.blocks b) ∙ rd,
          λ j lj miss. refl,
        )
        | inl done ↦
            let new : List ℕ = take 512 u.iov in
            let len : length new ≡ 512 = omega (arith, length-take 512 u.iov, r.room, le) in
            inr (
              sv,
              landed u (b * 512 % 2 ^ 32) (s.blocks b),
              put s sv k c new m sized inside there len,
              rw (wide, write, x ∙ ap (λ q. ok (q, left, record s { ios = c })) done, z done, write)
                  refl,
              put-Whole s sv k c new m sized inside there len,
              subst (Passed u (landed u (b * 512 % 2 ^ 32) (s.blocks b)) 512)
                  (ap (λ w. if w then [] else take 512 (s.blocks b)) write)
                  (landed-Passed u (b * 512 % 2 ^ 32) (s.blocks b) r.small le),
              put_bytes s sv u k 512 c m sized inside there new len refl (omega (arith, aligned))
                  λ i li.
                    let full : hit (u.uio_offset % 512) 512 i ≡ true =
                      block_hit u.uio_offset i aligned li in
                    let at : i ≡ i - u.uio_offset % 512 = omega (arith, aligned) in
                    rw full (get_or-take 512 u.iov i li ∙ ap (λ o. get_or u.iov o 0) at),
            )
      ]

  -- A transfer that first has sfs_bmap find or allocate the block.
  pub write_grown :
      (s : Sfs) (sv : SfsVnode) (u : Uio) (n : ℕ)
      (cont : ℕ → SfsVnode → Sfs → Run (Code × SfsVnode × Uio × Sfs))
      → Retries dev s.sp_nblocks
      → Mapped s sv
      → IsSized s
      → u.uio_rw ≡ uio_write
      → u.uio_offset < 73216
      → ((s1 : Sfs) (sv1 : SfsVnode)
          → Whole s sv s1 sv1
          → block_of s1 sv1 (u.uio_offset / 512) ≢ 0
          → Writes sv1 s1 u n (cont (block_of s1 sv1 (u.uio_offset / 512)) sv1 s1))
      → Writes sv s u n (
          bmap dev (u.uio_offset / 512) true sv s >>= λ r. elim r.0 [
            | err e ↦ ok (some e, r.1, u, r.2)
            | got b ↦ cont b r.1 r.2
          ])
  write_grown s sv u n cont takes m sized rd lt next =
      let k = u.uio_offset / 512 in
      let inside : k < 143 = omega (arith, lt) in
      elim (bmap_lem dev k true sv s takes m inside) [
        | inl (e, sv1, s1, x, m1, map, sp, size) ↦ inl (
          e,
          sv1,
          u,
          s1,
          rw x refl,
          record {
            mapped = m1;
            sized = sp.keeps_size sized;
            same_nblocks = sp.same_nblocks;
            same_size = size;
          },
          rd,
          λ j lj miss. byte_kept s s1 sv sv1 j m sp lj (map (j / 512) (omega (arith, lj))),
        )
        | inr (b, sv1, s1, x, m1, map, old, new, blank, sp, size) ↦
            let at : b ≡ block_of s1 sv1 k = sym (map k inside ∙ if_self k b (block_of s sv k)) in
            let w : Whole s sv s1 sv1 = record {
              mapped = m1;
              sized = sp.keeps_size sized;
              same_nblocks = sp.same_nblocks;
              same_size = size;
            } in
            then-Writes sv sv1 s s1 u u 0 n n _ (cont (block_of s1 sv1 k) sv1 s1) w (Passed-refl u)
              (λ j lj.
                byte_grown s s1 sv sv1 k b j m sp map old (λ z ne. (blank z ne).2) lj
                ∙ sym (nothing_after u (byte_at s sv) j))
              (rw x (ap (λ c. cont c sv1 s1) at)) (omega arith)
              (next s1 sv1 w λ z. new refl (at ∙ z))
      ]
