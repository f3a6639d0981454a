-- ===== src/Uio/Move.antt =====
-- os161/kern/userprog/uio.c: what uiomove and uiomovezeros move.
use azurespider.Prelude.{
  ◌&&◌, Bool-cases, ℕ, zero, suc, ◌+◌, ◌-◌, ◌^◌, ◌≤◌, ◌<◌, ◌≡◌, refl, sym, ap, subst, ◌∙◌, ◌⊎◌, inl,
  inr, Bool, true, false, none, some, Option-cases, List, [], ◌∷◌, ◌++◌, append_assoc, append-nil,
  ltb, ◌==◌, if◌then◌else◌, take, drop, length, length-drop, replicate, arith, ok, panic,
}
use azurespider.Errno.{Errno}
use azurespider.Uio.Copy.{UserMemory, copied-le}
use azurespider.Uio.{
  half_stored, interrupted, amount, move_on, Uio, UioRw, uio_read, uio_write, UioSeg, uio_sysspace,
  uio_userspace, uio_userispace, is_write, is_sysspace, stored, received, advance, transfer,
  uiomove_loop, uiomove, uiomovezeros_loop, uiomovezeros,
}

-- The memory of the uio has room for its residue, and its address space is the one in context.
pub record Ready (vmspace : ℕ) (u : Uio) : Type 0 where
  pub small : u.uio_resid < 2 ^ 32
  pub room : u.uio_resid ≤ length u.iov
  pub space : (if is_sysspace u.uio_segflg then u.uio_space == 0 else u.uio_space == vmspace) ≡ true

-- From u to u' n bytes are moved, and reading has stored `bytes`.
pub record Passed (u u' : Uio) (n : ℕ) (bytes : List ℕ) : Type 0 where
  pub moved : u'.moved ≡ u.moved ++ bytes
  pub iov : u'.iov ≡ drop n u.iov
  pub offset : u'.uio_offset ≡ u.uio_offset + n
  pub resid : u'.uio_resid + n ≡ u.uio_resid
  pub same_rw : u'.uio_rw ≡ u.uio_rw
  pub same_segflg : u'.uio_segflg ≡ u.uio_segflg
  pub same_space : u'.uio_space ≡ u.uio_space

drop-nil : (k : ℕ) → drop {A = ℕ} k [] ≡ []
drop-nil zero = refl
drop-nil (suc k) = refl

pub drop-drop : (m n : ℕ) (xs : List ℕ) → drop m (drop n xs) ≡ drop (n + m) xs
drop-drop m zero xs = ap (λ k. drop k xs) {x = m} {y = 0 + m} (omega arith)
drop-drop m (suc n) [] = drop-nil m ∙ sym (drop-nil (suc n + m))
drop-drop m (suc n) (x ∷ xs) =
    drop-drop m n xs ∙ ap (λ k. drop k (x ∷ xs)) {x = suc (n + m)} {y = suc n + m} (omega arith)

take-replicate : (m n : ℕ) → m ≤ n → take {A = ℕ} m (replicate n 0) ≡ replicate m 0
take-replicate zero n h = refl
take-replicate (suc m) zero h = absurd (omega (arith, h))
take-replicate (suc m) (suc n) h = ap (λ xs. 0 ∷ xs) (take-replicate m n (omega (arith, h)))

replicate-append : (m n : ℕ) → replicate {A = ℕ} m 0 ++ replicate n 0 ≡ replicate (m + n) 0
replicate-append zero n = ap (λ k. replicate k 0) {x = n} {y = 0 + n} (omega arith)
replicate-append (suc m) n =
    ap (λ xs. 0 ∷ xs) (replicate-append m n)
    ∙ ap (λ k. replicate k 0) {x = suc (m + n)} {y = suc m + n} (omega arith)

pub received_lem :
    (d : UioRw) (n : ℕ) (buf xs : List ℕ)
    → received d n buf xs ≡ xs ++ (if is_write d then [] else take n buf)
received_lem uio_read n buf xs = refl
received_lem uio_write n buf xs = sym (append-nil xs)

-- Nothing is stored.
stored-zero : (d : UioRw) (buf iov : List ℕ) → stored d 0 buf iov ≡ []
stored-zero uio_read buf iov = refl
stored-zero uio_write buf iov = refl

no_bytes : (b : Bool) (buf : List ℕ) → (if b then [] else take 0 buf) ≡ []
no_bytes true buf = refl
no_bytes false buf = refl

pub Passed-refl : (u : Uio) → Passed u u 0 []
Passed-refl u = record {
  moved = sym (append-nil u.moved);
  iov = refl;
  offset = omega arith;
  resid = omega arith;
  same_rw = refl;
  same_segflg = refl;
  same_space = refl;
}

pub then-Passed :
    {u v w : Uio} {m n : ℕ} {xs ys : List ℕ}
    → Passed u v m xs
    → Passed v w n ys
    → Passed u w (m + n) (xs ++ ys)
then-Passed {u} {v} {w} {m} {n} {xs} {ys} a b = record {
  moved = b.moved ∙ ap (λ zs. zs ++ ys) a.moved ∙ append_assoc u.moved xs ys;
  iov = b.iov ∙ ap (drop n) a.iov ∙ drop-drop n m u.iov;
  offset = omega (arith, a.offset, b.offset);
  resid = omega (arith, a.resid, b.resid);
  same_rw = b.same_rw ∙ a.same_rw;
  same_segflg = b.same_segflg ∙ a.same_segflg;
  same_space = b.same_space ∙ a.same_space;
}

pub Ready-Passed :
    (vmspace : ℕ) (u u' : Uio) (n : ℕ) (bytes : List ℕ)
    → Ready vmspace u
    → Passed u u' n bytes
    → Ready vmspace u'
Ready-Passed vmspace u u' n bytes r p = record {
  small = omega (arith, r.small, p.resid);
  room = omega (arith, r.room, p.resid, ap length p.iov, length-drop n u.iov);
  space = rw (p.same_segflg, p.same_space) r.space;
}

amount_all : (n : ℕ) (u : Uio) → n ≤ length u.iov → amount n u ≡ n
unfolding amount
amount_all n u le = ground (arith, le)

module _ (mem : UserMemory) (vmspace : ℕ) where
  stop :
      (rounds : ℕ) (buf : List ℕ) (u : Uio)
      → uiomove_loop mem vmspace (suc rounds) buf 0 u ≡ ok (none, buf, u)
  unfolding uiomove_loop
  stop rounds buf u = ground arith

  once :
      (rounds n : ℕ) (buf : List ℕ) (u : Uio)
      → 0 < n
      → 0 < u.uio_resid
      → n ≤ length u.iov
      → uiomove_loop mem vmspace (suc rounds) buf n u
        ≡ move_on mem vmspace n buf u
            (uiomove_loop mem vmspace rounds (drop n buf) 0 (advance n buf u))
  unfolding uiomove_loop
  once rounds n buf u pos live le =
      ap
        (λ k.
          if ltb 0 n && ltb 0 u.uio_resid
          then (if k == 0
              then panic
              else move_on mem vmspace k buf u
                  (uiomove_loop mem vmspace rounds (drop k buf) (n - k) (advance k buf u)))
          else ok (none, buf, u))
        (amount_all n u le)
      ∙ ap
          (λ k.
            if ltb 0 n && ltb 0 u.uio_resid
            then (if n == 0
                then panic
                else move_on mem vmspace n buf u
                    (uiomove_loop mem vmspace rounds (drop n buf) k (advance n buf u)))
            else ok (none, buf, u))
          {x = n - n} {y = 0} (omega arith)
      ∙ ground (arith, pos, live)

  step :
      (rounds n : ℕ) (buf : List ℕ) (u : Uio)
      → 0 < n
      → 0 < u.uio_resid
      → n ≤ length u.iov
      → (transfer mem vmspace u.uio_segflg u.iov_base n).0 ≡ none
      → uiomove_loop mem vmspace (suc (suc rounds)) buf n u
        ≡ ok (none, stored u.uio_rw n buf u.iov ++ drop n buf, advance n buf u)
  unfolding move_on
  step rounds n buf u pos live le free =
      once (suc rounds) n buf u pos live le
      ∙ ap (move_on mem vmspace n buf u) (stop rounds (drop n buf) (advance n buf u))
      ∙ ground (arith, free)

  fail :
      (rounds n : ℕ) (buf : List ℕ) (u : Uio) (e : Errno)
      → 0 < n
      → 0 < u.uio_resid
      → n ≤ length u.iov
      → (transfer mem vmspace u.uio_segflg u.iov_base n).0 ≡ some e
      → uiomove_loop mem vmspace (suc rounds) buf n u
        ≡ ok (
          some e,
          half_stored u.uio_rw (transfer mem vmspace u.uio_segflg u.iov_base n).1 buf u.iov,
          interrupted (transfer mem vmspace u.uio_segflg u.iov_base n).1 buf u,
        )
  unfolding move_on
  fail rounds n buf u e pos live le bad = once rounds n buf u pos live le ∙ ground (arith, bad)

  transfer_sysspace :
      (g : UioSeg) (base n : ℕ) → is_sysspace g ≡ true → (transfer mem vmspace g base n).0 ≡ none
  unfolding transfer
  transfer_sysspace uio_sysspace base n e = refl
  transfer_sysspace uio_userspace base n e = cc
  transfer_sysspace uio_userispace base n e = cc

  transfer-le : (g : UioSeg) (base n : ℕ) → (transfer mem vmspace g base n).1 ≤ n
  unfolding transfer
  transfer-le uio_sysspace base n = omega arith
  transfer-le uio_userspace base n = copied-le mem base n
  transfer-le uio_userispace base n = copied-le mem base n

  advance-Passed :
      (n : ℕ) (buf : List ℕ) (u : Uio)
      → Ready vmspace u
      → n ≤ u.uio_resid
      → Passed u (advance n buf u) n (if is_write u.uio_rw then [] else take n buf)
  advance-Passed n buf u r le = record {
    moved = received_lem u.uio_rw n buf u.moved;
    iov = refl;
    offset = refl;
    resid = omega (arith, r.small, le);
    same_rw = refl;
    same_segflg = refl;
    same_space = refl;
  }

  pub uiomove_lem :
      (buf : List ℕ) (n : ℕ) (u : Uio)
      → Ready vmspace u
      → n ≤ u.uio_resid
      → ((e : Errno) × (k : ℕ) × (uiomove mem vmspace buf n u
            ≡ ok (some e, half_stored u.uio_rw k buf u.iov, interrupted k buf u))
          × (k ≤ n)
          × (is_sysspace u.uio_segflg ≡ false))
        ⊎ ((u' : Uio) × (uiomove mem vmspace buf n u
              ≡ ok (none, stored u.uio_rw n buf u.iov ++ drop n buf, u'))
            × Passed u u' n (if is_write u.uio_rw then [] else take n buf))
  unfolding uiomove uiomove_loop
  uiomove_lem buf zero u r le = inr (
    u,
    rw (r.space, stored-zero u.uio_rw buf u.iov) (ground arith),
    subst (Passed u u 0) (sym (no_bytes (is_write u.uio_rw) buf)) (Passed-refl u),
  )
  uiomove_lem buf (suc n) u r le =
      let rounds : suc n + 1 ≡ suc (suc n) = omega arith in
      let room : suc n ≤ length u.iov = omega (arith, le, r.room) in
      let live : 0 < u.uio_resid = omega (arith, le) in
      elim (Option-cases (transfer mem vmspace u.uio_segflg u.iov_base (suc n)).0) [
        | inl free ↦ inr (
          advance (suc n) buf u,
          rw (r.space, rounds) (step n (suc n) buf u (omega arith) live room free),
          advance-Passed (suc n) buf u r le,
        )
        | inr (e, bad) ↦ inl (
          e,
          (transfer mem vmspace u.uio_segflg u.iov_base (suc n)).1,
          rw (r.space, rounds) (fail (suc n) (suc n) buf u e (omega arith) live room bad),
          transfer-le u.uio_segflg u.iov_base (suc n),
          elim (Bool-cases (is_sysspace u.uio_segflg)) [
            | inr user ↦ user
            | inl kernel ↦
                absurd
                  (ground (arith, transfer_sysspace u.uio_segflg u.iov_base (suc n) kernel, bad))
          ],
        )
      ]

  -- One pass of uiomovezeros.
  zeros_lem :
      (rounds n : ℕ) (u : Uio)
      → n < rounds
      → Ready vmspace u
      → n ≤ u.uio_resid
      → is_write u.uio_rw ≡ false
      → ((e : Errno) × (u' : Uio) × (uiomovezeros_loop mem vmspace rounds n u ≡ ok (some e, u'))
          × (is_sysspace u.uio_segflg ≡ false)
          × (u'.uio_rw ≡ u.uio_rw))
        ⊎ ((u' : Uio) × (uiomovezeros_loop mem vmspace rounds n u ≡ ok (none, u'))
            × Passed u u' n (replicate n 0))
  unfolding uiomovezeros_loop
  zeros_lem zero n u lt r le rd = absurd (omega (arith, lt))
  zeros_lem (suc rounds) zero u lt r le rd = inr (u, ground arith, Passed-refl u)
  zeros_lem (suc rounds) (suc n) u lt r le rd =
      let amt = if ltb (suc n) 16 then suc n else 16 in
      let least : amt ≤ suc n = ground arith in
      let some_ : 0 < amt = ground arith in
      let short : amt ≤ 16 = ground arith in
      elim (uiomove_lem (replicate 16 0) amt u r (omega (arith, least, le))) [
        | inl (e, k, m, short_, user) ↦
            inl (e, interrupted k (replicate 16 0) u, ground (arith, m), user, refl)
        | inr (u1, m, p) ↦
            let bytes : (if is_write u.uio_rw then [] else take amt (replicate 16 0))
                ≡ replicate amt 0 =
              rw rd (take-replicate amt 16 short) in
            let q : Passed u u1 amt (replicate amt 0) = subst (Passed u u1 amt) bytes p in
            elim (zeros_lem rounds (suc n - amt) u1 (omega (arith, lt, least, some_))
              (Ready-Passed vmspace u u1 amt (replicate amt 0) r q)
              (omega (arith, le, q.resid, least)) (ap is_write q.same_rw ∙ rd)) [
                | inl (e, u', k, user, w) ↦ inl (
                  e,
                  u',
                  ground (arith, m, k),
                  ap is_sysspace (sym q.same_segflg) ∙ user,
                  w ∙ q.same_rw,
                )
                | inr (u', k, p2) ↦ inr (
                  u',
                  ground (arith, m, k),
                  subst (λ c. Passed u u' c (replicate c 0)) {x = amt + (suc n - amt)}
                      (omega (arith, least))
                      (subst (Passed u u' (amt + (suc n - amt)))
                        (replicate-append amt (suc n - amt)) (then-Passed q p2)),
                )
              ]
      ]

  pub uiomovezeros_lem :
      (n : ℕ) (u : Uio)
      → Ready vmspace u
      → n ≤ u.uio_resid
      → is_write u.uio_rw ≡ false
      → ((e : Errno) × (u' : Uio) × (uiomovezeros mem vmspace n u ≡ ok (some e, u'))
          × (is_sysspace u.uio_segflg ≡ false)
          × (u'.uio_rw ≡ u.uio_rw))
        ⊎ ((u' : Uio) × (uiomovezeros mem vmspace n u ≡ ok (none, u'))
            × Passed u u' n (replicate n 0))
  unfolding uiomovezeros
  uiomovezeros_lem n u r le rd = rw rd (zeros_lem (n + 1) n u (omega arith) r le rd)
