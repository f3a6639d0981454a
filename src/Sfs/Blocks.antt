-- ===== src/Sfs/Blocks.antt =====
-- os161/kern/fs/sfs/sfs_io.c and sfs_vnode.c: block transfers and the free map.
use azurespider.Prelude.{
  subst, ℕ_discrete, length, if_self, if_ne, dec_lt, ℕ, zero, suc, ◌+◌, ◌≤◌, ◌<◌, ◌≡◌, ◌≢◌, refl,
  ap, ◌∙◌, ◌&&◌, leb, ◌⊎◌, inl, inr, Bool, true, false, Bool-cases, none, some, Option-cases, List,
  ◌==◌, if◌then◌else◌, replicate, arith, ok,
}
use azurespider.Errno.{Errno, einval, eio, enospc, Code, err, got}
use azurespider.Bitmap.{Bitmap}
use azurespider.Bitmap.Bits.{IsValid, bit, isset_lem}
use azurespider.Bitmap.Alloc.{Took, alloc_lem}
use azurespider.Sfs.{
  Sfs, DeviceIo, done, failed, Device, d_io, is_einval, is_eio, put_block, rwblock, rblock, wblock,
  clearblock, balloc, bused,
}

-- Whether a block is marked in use.
abbrev pub in_use : Sfs → ℕ → Bool
in_use s b = bit s.sfs_freemap b

-- The free map covers the blocks of the file system, and marks the superblock and the blocks past the
-- end in use.
pub record FsValid (s : Sfs) : Type 0 where
  pub map : IsValid s.sfs_freemap
  pub covers : s.sp_nblocks ≤ s.sfs_freemap.nbits
  pub beyond : (b : ℕ) → s.sp_nblocks ≤ b → b < s.sfs_freemap.nbits → in_use s b ≡ true
  pub super_used : in_use s 0 ≡ true

-- Every block on the device has SFS_BLOCKSIZE bytes.
abbrev pub IsSized : Sfs → Type 0
IsSized s = (b : ℕ) → length (s.blocks b) ≡ 512

-- From s to s' blocks may be allocated, and those in use before keep what they hold.
pub record Extends (s s' : Sfs) : Type 0 where
  pub valid : FsValid s'
  pub same_nblocks : s'.sp_nblocks ≡ s.sp_nblocks
  pub keeps_used : (b : ℕ) → in_use s b ≡ true → in_use s' b ≡ true
  pub keeps_data : (b : ℕ) → in_use s b ≡ true → s'.blocks b ≡ s.blocks b
  pub keeps_size : IsSized s → IsSized s'

-- A device that takes every block of the file system: EINVAL means that a block is out of range.
abbrev pub Accepts : Device → ℕ → Type 0
Accepts dev n = (k b : ℕ) (e : Errno) (moved : ℕ) → b < n → dev k b ≡ failed e moved → e ≢ einval

-- No d_io that returns EIO has used up its uio. A device may return EIO as often as it likes; lhd_io
-- keeps this as long as the disk refuses no write, since it hands the bytes over before the disk
-- answers.
abbrev pub Rewinds : Device → ℕ → Type 0
Rewinds dev n = (k b moved : ℕ) → b < n → dev k b ≡ failed eio moved → moved < 512

abbrev pub Retries : Device → ℕ → Type 0
Retries dev n = Accepts dev n × Rewinds dev n

pub unchanged : (s : Sfs) → FsValid s → Extends s s
unchanged s v = record {
  valid = v;
  same_nblocks = refl;
  keeps_used = λ b h. h;
  keeps_data = λ b h. refl;
  keeps_size = λ z. z;
}

pub then-Extends : {s t u : Sfs} → Extends s t → Extends t u → Extends s u
then-Extends a b = record {
  valid = b.valid;
  same_nblocks = b.same_nblocks ∙ a.same_nblocks;
  keeps_used = λ i h. b.keeps_used i (a.keeps_used i h);
  keeps_data = λ i h. b.keeps_data i (a.keeps_used i h) ∙ a.keeps_data i h;
  keeps_size = λ z. b.keeps_size (a.keeps_size z);
}

-- Only the count of d_io changes.
pub counted : (s : Sfs) (n : ℕ) → FsValid s → Extends s (record s { ios = n })
counted s n v = record {
  valid = record { map = v.map; covers = v.covers; beyond = v.beyond; super_used = v.super_used };
  same_nblocks = refl;
  keeps_used = λ b h. h;
  keeps_data = λ b h. refl;
  keeps_size = λ z. z;
}

-- A free block is marked in use, and may be written.
taken :
    (s : Sfs) (b n : ℕ) (map : Bitmap) (data_ : ℕ → List ℕ)
    → FsValid s
    → Took s.sfs_freemap b map
    → ((i : ℕ) → b ≢ i → data_ i ≡ s.blocks i)
    → (IsSized s → length (data_ b) ≡ 512)
    → Extends s (record s { sfs_freemap = map; sfs_freemapdirty = true; blocks = data_; ios = n })
taken s b n map data_ v t same size =
    let mono : (i : ℕ) → in_use s i ≡ true → bit map i ≡ true =
      λ i h. ground (arith, t.bits i, h) in
    record {
      valid = record {
        map = t.valid;
        covers = omega (arith, v.covers, t.nbits_kept);
        beyond = λ i past within. mono i (v.beyond i past (omega (arith, within, t.nbits_kept)));
        super_used = mono 0 v.super_used;
      };
      same_nblocks = refl;
      keeps_used = mono;
      keeps_data = λ i h. same i λ e. ground (arith, e, h, t.was_clear);
      keeps_size = λ z i. elim (ℕ_discrete b i) [
        | yes e ↦ subst (λ c. length (data_ c) ≡ 512) e (size z)
        | no ne ↦ ap length (same i ne) ∙ z i
      ];
    }

einval-or : (e : Errno) → (is_einval e ≡ true) → e ≡ einval
einval-or einval h = refl
einval-or e h = cc

eio-or : (e : Errno) → (is_eio e ≡ true) → e ≡ eio
eio-or eio h = refl
eio-or e h = cc

DeviceIo-cases : (d : DeviceIo) → (d ≡ done) ⊎ ((e : Errno) × (moved : ℕ) × (d ≡ failed e moved))
DeviceIo-cases done = inl refl
DeviceIo-cases (failed e moved) = inr (e, moved, refl)

module _ (dev : Device) where
  -- A block transfer ends after at most eleven d_io, and changes nothing but their count. If it
  -- succeeds, the uio of the last d_io was not used up.
  pub rwblock_lem :
      (write : Bool) (left block moved : ℕ) (s : Sfs)
      → Accepts dev s.sp_nblocks
      → (write ≡ true → Rewinds dev s.sp_nblocks)
      → block < s.sp_nblocks
      → (write && leb 512 moved) ≡ false
      → (c : Code) × (k : ℕ) × (n : ℕ) × (rwblock dev write left block moved s
          ≡ ok (c, k, record s { ios = n }))
        × (c ≡ none → k ≡ 0)
  unfolding rwblock d_io
  rwblock_lem write zero block moved s takes rewinds lt fresh =
      elim (DeviceIo-cases (dev s.ios block)) [
        | inl fine ↦ (none, 0, s.ios + 1, ground (arith, fresh, fine), λ z. refl)
        | inr (e, k, bad) ↦ elim (Bool-cases (is_einval e)) [
          | inl out ↦ absurd (takes s.ios block e k lt bad (einval-or e out))
          | inr fair ↦ (some e, k, s.ios + 1, ground (arith, fresh, bad, fair), λ z. cc)
        ]
      ]
  rwblock_lem write (suc left) block moved s takes rewinds lt fresh =
      elim (DeviceIo-cases (dev s.ios block)) [
        | inl fine ↦ (none, 0, s.ios + 1, ground (arith, fresh, fine), λ z. refl)
        | inr (e, k, bad) ↦ elim (Bool-cases (is_einval e)) [
          | inl out ↦ absurd (takes s.ios block e k lt bad (einval-or e out))
          | inr fair ↦ elim (Bool-cases (is_eio e)) [
            | inr final ↦ (some e, k, s.ios + 1, ground (arith, fresh, bad, fair, final), λ z. cc)
            | inl again ↦
                let at : dev s.ios block ≡ failed eio k =
                  bad ∙ ap (λ x. failed x k) (eio-or e again) in
                let next : (write && leb 512 k) ≡ false = elim (Bool-cases write) [
                  | inl w ↦ let short_ = rewinds w s.ios block k lt at in ground (arith, w, short_)
                  | inr r ↦ ground (arith, r)
                ] in
                let (c, k1, n, r, z) =
                  rwblock_lem write left block k (record s { ios = s.ios + 1 }) takes rewinds lt
                    next in
                (c, k1, n, ground (arith, fresh, bad, fair, again, r), z)
          ]
        ]
      ]

  -- The same for a write.
  pub rwblock-write :
      (block : ℕ) (s : Sfs)
      → Retries dev s.sp_nblocks
      → block < s.sp_nblocks
      → (c : Code) × (k : ℕ) × (n : ℕ) × (rwblock dev true 10 block 0 s
          ≡ ok (c, k, record s { ios = n }))
        × (c ≡ none → k ≡ 0)
  rwblock-write block s (takes, rewinds) lt =
      rwblock_lem true 10 block 0 s takes (λ w. rewinds) lt refl

  pub rwblock-read :
      (block : ℕ) (s : Sfs)
      → Accepts dev s.sp_nblocks
      → block < s.sp_nblocks
      → (c : Code) × (k : ℕ) × (n : ℕ) × (rwblock dev false 10 block 0 s
          ≡ ok (c, k, record s { ios = n }))
        × (c ≡ none → k ≡ 0)
  rwblock-read block s takes lt =
      rwblock_lem false 10 block 0 s takes (λ w. absurd (ground (arith, w))) lt refl

  pub rblock_lem :
      (s : Sfs)
      → Accepts dev s.sp_nblocks
      → (block : ℕ) → block < s.sp_nblocks
      → ((e : Errno) × (n : ℕ) × (rblock dev block s ≡ ok (err e, record s { ios = n })))
        ⊎ ((n : ℕ) × (rblock dev block s ≡ ok (got (s.blocks block), record s { ios = n })))
  unfolding rblock
  rblock_lem s takes block lt =
      let (c, k, n, r, z) = rwblock-read block s takes lt in
      elim (Option-cases c) [
        | inl fine ↦ inr (n, ground (arith, r, fine))
        | inr (e, bad) ↦ inl (e, n, ground (arith, r, bad))
      ]

  pub wblock_lem :
      (s : Sfs)
      → Retries dev s.sp_nblocks
      → (bytes : List ℕ) (block : ℕ) → block < s.sp_nblocks
      → ((e : Errno) × (n : ℕ) × (wblock dev bytes block s ≡ ok (some e, record s { ios = n })))
        ⊎ ((n : ℕ) × (wblock dev bytes block s
              ≡ ok (none, put_block (record s { ios = n }) block bytes)))
  unfolding wblock
  wblock_lem s takes bytes block lt =
      let (c, k, n, r, z) = rwblock-write block s takes lt in
      elim (Option-cases c) [
        | inl fine ↦ inr (n, rw (r, fine, z fine) refl)
        | inr (e, bad) ↦ inl (e, n, rw (r, bad) refl)
      ]

  free-in-range :
      (s : Sfs) (b : ℕ) (map : Bitmap)
      → FsValid s
      → Took s.sfs_freemap b map
      → (b < s.sp_nblocks) × (0 < b)
  free-in-range s b map v t = (
    elim (dec_lt b s.sp_nblocks) [
      | yes lt ↦ lt
      | no ge ↦
          let marked = v.beyond b (omega (arith, ge)) t.in_bits in
          absurd (ground (arith, marked, t.was_clear))
    ],
    elim (dec_lt 0 b) [
      | yes pos ↦ pos
      | no z ↦
          let e : b ≡ 0 = omega (arith, z) in
          absurd (ground (arith, ap (in_use s) e, v.super_used, t.was_clear))
    ],
  )

  -- sfs_balloc on a valid free map either hands out a block of the file system that was free, is now in
  -- use and holds zeros, or fails. Either way what was in use stays so and keeps what it holds, and the
  -- free map stays valid. It never panics. The device is one on which no d_io that returned EIO has used
  -- up its uio.
  pub balloc_lem :
      (s : Sfs)
      → Retries dev s.sp_nblocks
      → FsValid s
      → ((e : Errno) × (s' : Sfs) × (balloc dev s ≡ ok (err e, s')) × Extends s s')
        ⊎ ((b : ℕ) × (s' : Sfs) × (balloc dev s ≡ ok (got b, s'))
            × Extends s s'
            × (b < s.sp_nblocks)
            × (0 < b)
            × (in_use s b ≡ false)
            × (in_use s' b ≡ true)
            × (s'.blocks b ≡ replicate 512 0))
  unfolding balloc clearblock
  balloc_lem s takes v = elim (alloc_lem s.sfs_freemap v.map) [
    | inr (r, full) ↦ inl (enospc, s, ground (arith, r), unchanged s v)
    | inl (b, map, r, t) ↦
        let (lt, pos) = free-in-range s b map v t in
        let s1 : Sfs = record s { sfs_freemap = map; sfs_freemapdirty = true } in
        let marked : bit map b ≡ true = ground (arith, t.bits b) in
        elim (wblock_lem s1 takes (replicate 512 0) b lt) [
          | inl (e, n, w) ↦ inl (
            e,
            record s1 { ios = n },
            ground (arith, r, lt, w),
            taken s b n map s.blocks v t (λ i ne. refl) (λ z. z b),
          )
          | inr (n, w) ↦ inr (
            b,
            put_block (record s1 { ios = n }) b (replicate 512 0),
            ground (arith, r, lt, w),
            taken s b n map (λ i. if b == i then replicate 512 0 else s.blocks i) v t
                (λ i ne. if_ne b i (replicate 512 0) (s.blocks i) ne)
                (λ z. ap length (if_self b (replicate 512 0) (s.blocks b))),
            lt,
            pos,
            t.was_clear,
            marked,
            if_self b (replicate 512 0) (s.blocks b),
          )
        ]
  ]

  -- sfs_bused on a block of the file system is its bit.
  pub bused_lem : (s : Sfs) (b : ℕ) → FsValid s → b < s.sp_nblocks → bused dev b s ≡ ok (in_use s b)
  unfolding bused
  bused_lem s b v lt = ground (arith, isset_lem s.sfs_freemap b v.map (omega (arith, lt, v.covers)))
