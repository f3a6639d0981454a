-- ===== src/Sfs/Bytes.antt =====
-- os161/kern/fs/sfs/sfs_vnode.c: the bytes of a file while its blocks are allocated and written.
use azurespider.Prelude.{
  ℕ, zero, suc, ◌+◌, ◌-◌, ◌/◌, ◌%◌, ◌≤◌, ◌<◌, ◌≡◌, ◌≢◌, refl, sym, ap, ◌∙◌, true, false, ◌&&◌, List,
  [], ◌∷◌, ◌++◌, ltb, leb, ◌==◌, if◌then◌else◌, if_ne, if_self, get_or, take, drop, length,
  length-take, length-drop, length-append, replicate, ℕ_discrete, dec_lt, arith,
}
use azurespider.Sfs.{Sfs, SfsVnode, put_block}
use azurespider.Sfs.Words.{words_of, get_or-zeros}
use azurespider.Sfs.Blocks.{IsSized}
use azurespider.Sfs.Mapping.{block_of, Mapped}
use azurespider.Sfs.Direct.{Spares}
use azurespider.Sfs.Owns.{Owns-same}
use azurespider.Sfs.OwnsMap.{Mapped-Owns, Owns-Mapped, Owns-written}
use azurespider.Sfs.Look.{byte_at}

-- What a file with its own blocks keeps while it is written.
pub record Whole (s : Sfs) (sv : SfsVnode) (s' : Sfs) (sv' : SfsVnode) : Type 0 where
  pub mapped : Mapped s' sv'
  pub sized : IsSized s'
  pub same_nblocks : s'.sp_nblocks ≡ s.sp_nblocks
  pub same_size : sv'.sv_i.sfi_size ≡ sv.sv_i.sfi_size

-- The byte at offset o of block b, where block 0 is a hole.
abbrev pub byte_of : Sfs → ℕ → ℕ → ℕ
byte_of s b o = if b == 0 then 0 else get_or (s.blocks b) o 0

-- A block that is in use keeps its bytes.
pub byte_kept :
    (s s' : Sfs) (sv sv' : SfsVnode) (j : ℕ)
    → Mapped s sv
    → Spares s s' sv.sv_i.sfi_indirect
    → j < 73216
    → block_of s' sv' (j / 512) ≡ block_of s sv (j / 512)
    → byte_at s' sv' j ≡ byte_at s sv j
byte_kept s s' sv sv' j m sp lt same =
    let b = block_of s sv (j / 512) in
    ap (λ c. byte_of s' c (j % 512)) same ∙ elim (ℕ_discrete b 0) [
      | yes hole ↦
          ap (λ c. byte_of s' c (j % 512)) hole ∙ ap (λ c. byte_of s c (j % 512)) (sym hole)
      | no there ↦
          let inside : j / 512 < 143 = omega (arith, lt) in
          let used = (m.used (j / 512) inside there).1 in
          let data_ = sp.keeps_data b used (λ e. there (m.apart_indirect (j / 512) inside e)) in
          ap (λ bl. if b == 0 then 0 else get_or bl (j % 512) 0) data_
    ]

-- The bytes stay when a block of zeros fills the hole at k.
pub byte_grown :
    (s s' : Sfs) (sv sv' : SfsVnode) (k b j : ℕ)
    → Mapped s sv
    → Spares s s' sv.sv_i.sfi_indirect
    → ((i : ℕ) → i < 143 → block_of s' sv' i ≡ (if k == i then b else block_of s sv i))
    → (block_of s sv k ≢ 0 → b ≡ block_of s sv k)
    → (block_of s sv k ≡ 0 → b ≢ 0 → s'.blocks b ≡ replicate 512 0)
    → j < 73216
    → byte_at s' sv' j ≡ byte_at s sv j
byte_grown s s' sv sv' k b j m sp map old blank lt =
    let inside : j / 512 < 143 = omega (arith, lt) in
    elim (ℕ_discrete k (j / 512)) [
      | no other ↦
          byte_kept s s' sv sv' j m sp lt
            (map (j / 512) inside ∙ if_ne k (j / 512) b (block_of s sv (j / 512)) other)
      | yes at ↦
          let now : block_of s' sv' (j / 512) ≡ b = map (j / 512) inside ∙ ground (arith, at) in
          elim (ℕ_discrete (block_of s sv k) 0) [
            | no there ↦ byte_kept s s' sv sv' j m sp lt (now ∙ old there ∙ ap (block_of s sv) at)
            | yes hole ↦
                let before : byte_at s sv j ≡ 0 =
                  ap (λ c. byte_of s c (j % 512)) (ap (block_of s sv) (sym at) ∙ hole) in
                ap (λ c. byte_of s' c (j % 512)) now ∙ elim (ℕ_discrete b 0) [
                  | yes z ↦ ap (λ c. byte_of s' c (j % 512)) z ∙ sym before
                  | no new ↦
                      ap (λ bl. if b == 0 then 0 else get_or bl (j % 512) 0) (blank hole new)
                      ∙ ap (λ x. if b == 0 then 0 else x) (get_or-zeros 512 (j % 512))
                      ∙ ground (arith, before)
                ]
          ]
    ]

-- A block of the file is written.
module _ (s : Sfs) (sv : SfsVnode) (k n : ℕ) (bytes : List ℕ) (m : Mapped s sv) (sized : IsSized s)
    (inside : k < 143) (there : block_of s sv k ≢ 0) (len : length bytes ≡ 512) where
  abbrev pub put : Sfs
  put = put_block (record s { ios = n }) (block_of s sv k) bytes

  put_indirect_same : put.blocks sv.sv_i.sfi_indirect ≡ s.blocks sv.sv_i.sfi_indirect
  put_indirect_same =
      if_ne (block_of s sv k) sv.sv_i.sfi_indirect bytes (s.blocks sv.sv_i.sfi_indirect)
        (λ e. there (m.apart_indirect k inside e))

  put_map : (i : ℕ) → block_of put sv i ≡ block_of s sv i
  put_map i =
      ap
        (λ bl.
          if ltb i 15
          then get_or sv.sv_i.sfi_direct i 0
          else if sv.sv_i.sfi_indirect == 0
          then 0
          else get_or (words_of bl) (i - 15) 0)
        put_indirect_same

  pub put-Whole : Whole s sv put sv
  put-Whole = record {
    mapped =
        Owns-Mapped put sv m.ndirect
          (λ ne. ap (λ bl. length (words_of bl)) put_indirect_same ∙ (m.nindirect ne).2)
          (Owns-same put (block_of s sv) (block_of put sv) sv.sv_i.sfi_indirect
            (Owns-written s n (block_of s sv k) bytes (block_of s sv) sv.sv_i.sfi_indirect
              (Mapped-Owns s sv m))
            (λ i li. put_map i));
    sized = λ b. elim (ℕ_discrete (block_of s sv k) b) [
      | yes e ↦
          ap length
            (ap (λ c. if c == b then bytes else s.blocks b) e ∙ if_self b bytes (s.blocks b))
          ∙ len
      | no ne ↦ ap length (if_ne (block_of s sv k) b bytes (s.blocks b) ne) ∙ sized b
    ];
    same_nblocks = refl;
    same_size = refl;
  }

  pub byte_put :
      (j : ℕ)
      → j < 73216
      → byte_at put sv j ≡ (if k == j / 512 then get_or bytes (j % 512) 0 else byte_at s sv j)
  byte_put j lt =
      let i = j / 512 in
      let b = block_of s sv k in
      ap (λ c. byte_of put c (j % 512)) (put_map i) ∙ elim (ℕ_discrete k i) [
        | yes at ↦
            ap (λ c. byte_of put (block_of s sv c) (j % 512)) (sym at)
            ∙ if_ne b 0 0 (get_or (put.blocks b) (j % 512) 0) there
            ∙ ap (λ bl. get_or bl (j % 512) 0) (if_self b bytes (s.blocks b))
            ∙ ground (arith, at)
        | no other ↦ elim (ℕ_discrete (block_of s sv i) 0) [
          | yes hole ↦
              ap (λ c. byte_of put c (j % 512)) hole
              ∙ ap (λ c. byte_of s c (j % 512)) (sym hole)
              ∙ sym (if_ne k i (get_or bytes (j % 512) 0) (byte_at s sv j) other)
          | no live ↦
              let apart : b ≢ block_of s sv i =
                λ e. there (m.apart k i inside (omega (arith, lt)) other e) in
              ap (λ bl. if block_of s sv i == 0 then 0 else get_or bl (j % 512) 0)
                (if_ne b (block_of s sv i) bytes (s.blocks (block_of s sv i)) apart)
              ∙ sym (if_ne k i (get_or bytes (j % 512) 0) (byte_at s sv j) other)
        ]
      ]

-- Bytes in the middle of a block are replaced.
pub get_or-append :
    (xs ys : List ℕ) (i : ℕ)
    → get_or (xs ++ ys) i 0
      ≡ (if ltb i (length xs) then get_or xs i 0 else get_or ys (i - length xs) 0)
get_or-append [] ys i = ap (λ k. get_or ys k 0) {x = i} {y = i - 0} (omega arith) ∙ ground arith
get_or-append (x ∷ xs) ys zero = ground arith
get_or-append (x ∷ xs) ys (suc i) = get_or-append xs ys i ∙ ground arith

pub get_or-take : (n : ℕ) (xs : List ℕ) (i : ℕ) → i < n → get_or (take n xs) i 0 ≡ get_or xs i 0
get_or-take zero xs i h = absurd (omega (arith, h))
get_or-take (suc n) [] i h = refl
get_or-take (suc n) (x ∷ xs) zero h = refl
get_or-take (suc n) (x ∷ xs) (suc i) h = get_or-take n xs i (omega (arith, h))

pub get_or-drop : (n : ℕ) (xs : List ℕ) (i : ℕ) → get_or (drop n xs) i 0 ≡ get_or xs (n + i) 0
get_or-drop zero xs i = ap (λ k. get_or xs k 0) {x = i} {y = 0 + i} (omega arith)
get_or-drop (suc n) [] i = refl
get_or-drop (suc n) (x ∷ xs) i =
    get_or-drop n xs i
    ∙ ap (λ k. get_or (x ∷ xs) k 0) {x = suc (n + i)} {y = suc n + i} (omega arith)

module _ (skip n : ℕ) (iov bytes : List ℕ) (fits : skip + n ≤ 512) (room : n ≤ length iov)
    (len : length bytes ≡ 512) where
  abbrev pub patch : List ℕ
  patch = take skip bytes ++ (take n iov ++ drop n (drop skip bytes))

  pub length-patch : length patch ≡ 512
  length-patch = omega (
    arith,
    length-append (take skip bytes) (take n iov ++ drop n (drop skip bytes)),
    length-append (take n iov) (drop n (drop skip bytes)),
    length-take skip bytes,
    length-take n iov,
    length-drop n (drop skip bytes),
    length-drop skip bytes,
    fits,
    room,
    len,
  )

  pub get_or-patch :
      (i : ℕ)
      → i < 512
      → get_or patch i 0
        ≡ (if leb skip i && ltb i (skip + n) then get_or iov (i - skip) 0 else get_or bytes i 0)
  get_or-patch i lt =
      let first : length (take skip bytes) ≡ skip =
        omega (arith, length-take skip bytes, len, fits) in
      let second : length (take n iov) ≡ n = omega (arith, length-take n iov, room) in
      let whole = get_or-append (take skip bytes) (take n iov ++ drop n (drop skip bytes)) i in
      elim (dec_lt i skip) [
        | yes low ↦
            let l : ltb i (length (take skip bytes)) ≡ true = ground (arith, first, low) in
            let c : (leb skip i && ltb i (skip + n)) ≡ false = ground (arith, low) in
            rw c (whole ∙ rw l (get_or-take skip bytes i low))
        | no high ↦
            let l : ltb i (length (take skip bytes)) ≡ false = ground (arith, first, high) in
            let at : i - length (take skip bytes) ≡ i - skip = omega (arith, first) in
            let inner = get_or-append (take n iov) (drop n (drop skip bytes)) (i - skip) in
            let to_inner : get_or patch i 0
                ≡ get_or (take n iov ++ drop n (drop skip bytes)) (i - skip) 0 =
              whole ∙ rw l (ap (λ k. get_or (take n iov ++ drop n (drop skip bytes)) k 0) at) in
            elim (dec_lt i (skip + n)) [
              | yes mid ↦
                  let l2 : ltb (i - skip) (length (take n iov)) ≡ true =
                    ground (arith, second, mid, high) in
                  let c : (leb skip i && ltb i (skip + n)) ≡ true = ground (arith, high, mid) in
                  rw c (
                    to_inner
                    ∙ inner
                    ∙ rw l2 (get_or-take n iov (i - skip) (omega (arith, high, mid))))
              | no past ↦
                  let l2 : ltb (i - skip) (length (take n iov)) ≡ false =
                    ground (arith, second, past, high) in
                  let c : (leb skip i && ltb i (skip + n)) ≡ false = ground (arith, past) in
                  let back : skip + (n + (i - skip - length (take n iov))) ≡ i =
                    omega (arith, second, past, high) in
                  rw c (
                    to_inner
                    ∙ inner
                    ∙ rw l2 (
                        get_or-drop n (drop skip bytes) (i - skip - length (take n iov))
                        ∙ get_or-drop skip bytes (n + (i - skip - length (take n iov)))
                        ∙ ap (λ k. get_or bytes k 0) back))
            ]
      ]
