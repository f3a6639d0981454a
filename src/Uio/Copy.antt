-- ===== src/Uio/Copy.antt =====
-- os161/kern/lib/copyinout.c: copying between the kernel and user memory. `faults` says whether
-- touching a region of user memory ends in copyfail.
use azurespider.Prelude.{
  ◌∙◌, ap, ◌≢◌, ℕ, zero, suc, ◌+◌, ◌-◌, ◌%◌, ◌^◌, ◌≤◌, ◌<◌, ◌≡◌, Bool, not, ◌&&◌, none, some, List,
  [], ◌∷◌, ltb, leb, ◌==◌, if◌then◌else◌, arith, min,
}
use azurespider.Uio.Span.{span}
use azurespider.Errno.{efault, enametoolong, Code, Answer, err, got}

-- USERTOP
abbrev pub usertop : ℕ
usertop = 2 ^ 31

-- copycheck, with stoplen
unfoldable pub copycheck : ℕ → ℕ → Answer ℕ
copycheck userptr len =
    let top = (userptr + len + 2 ^ 32 - 1) % 2 ^ 32 in
    if ltb top userptr
    then err efault
    else if leb usertop userptr
    then err efault
    else if leb usertop top
    then got (usertop - userptr)
    else got len

-- copyin and copyout, less the bytes.
unfoldable pub copy : (ℕ → ℕ → Bool) → ℕ → ℕ → Code
copy faults userptr len = elim (copycheck userptr len) [
  | err e ↦ some e
  | got stoplen ↦
      if not (stoplen == len) then some efault else if faults userptr len then some efault else none
]

-- User memory: whether the copy of a region faults, and after how many bytes.
pub record UserMemory : Type 0 where
  pub faults : ℕ → ℕ → Bool
  pub reached : ℕ → ℕ → ℕ

-- How many bytes copyin and copyout have copied when they return: none if copycheck refuses the
-- region, and those before the fault if one ends the copy.
unfoldable pub copied : UserMemory → ℕ → ℕ → ℕ
copied mem userptr len = elim (copycheck userptr len) [
  | err e ↦ 0
  | got stoplen ↦
      if not (stoplen == len)
      then 0
      else if mem.faults userptr len
      then min (mem.reached userptr len) len
      else len
]

pub copied-le : (mem : UserMemory) (userptr len : ℕ) → copied mem userptr len ≤ len
unfolding copied copycheck
copied-le mem userptr len = ground arith

-- The loop of copystr from byte i on, with what is left of maxlen and stoplen, and its end: what is
-- stored, and the result with gotlen.
pub copystr_loop : (ℕ → ℕ) → ℕ → ℕ → ℕ → List ℕ × Answer ℕ
copystr_loop src i (suc maxlen) (suc stoplen) =
    let (dest, result) = copystr_loop src (i + 1) maxlen stoplen in
    if src i == 0 then (0 ∷ [], got (i + 1)) else (src i ∷ dest, result)
copystr_loop src i zero stoplen = ([], err enametoolong)
copystr_loop src i (suc maxlen) zero = ([], err efault)

-- copystr
pub copystr : (ℕ → ℕ) → ℕ → ℕ → List ℕ × Answer ℕ
copystr src maxlen stoplen = copystr_loop src 0 maxlen stoplen

-- copyin and copyout copy a region of user addresses exactly if it is not empty, ends below USERTOP
-- and does not fault; otherwise they return EFAULT, for an empty region too.
pub copy_lem :
    (faults : ℕ → ℕ → Bool) (userptr len : ℕ)
    → userptr < 2 ^ 32
    → len < 2 ^ 32
    → copy faults userptr len ≡ (
        if ltb 0 len && leb (userptr + len) usertop && not (faults userptr len)
        then none
        else some efault)
unfolding copy copycheck
copy_lem faults userptr len lu ll = ground (arith, lu, ll)

copystr_loop-next :
    (src : ℕ → ℕ) (i maxlen stoplen : ℕ)
    → src i ≢ 0
    → copystr_loop src i (suc maxlen) (suc stoplen) ≡ (
      src i ∷ (copystr_loop src (i + 1) maxlen stoplen).0,
      (copystr_loop src (i + 1) maxlen stoplen).1,
    )
unfolding copystr_loop
copystr_loop-next src i maxlen stoplen ne = ground (arith, ne)

copystr_loop-fits :
    (src : ℕ → ℕ) (i k maxlen stoplen : ℕ)
    → ((j : ℕ) → j < k → src (i + j) ≢ 0)
    → src (i + k) ≡ 0
    → k < maxlen
    → k < stoplen
    → copystr_loop src i maxlen stoplen ≡ (span src i (suc k), got (i + suc k))
unfolding copystr_loop
copystr_loop-fits src i k zero stoplen live z lm lt = absurd (omega (arith, lm))
copystr_loop-fits src i k (suc maxlen) zero live z lm lt = absurd (omega (arith, lt))
copystr_loop-fits src i zero (suc maxlen) (suc stoplen) live z lm lt =
    let here : src i ≡ 0 = ap src (omega arith) ∙ z in ground (arith, here)
copystr_loop-fits src i (suc k) (suc maxlen) (suc stoplen) live z lm lt =
    let ne : src i ≢ 0 = λ e. live 0 (omega arith) (ap src (omega arith) ∙ e) in
    copystr_loop-next src i maxlen stoplen ne
    ∙ ap (λ r. (src i ∷ r.0, r.1))
        (copystr_loop-fits src (i + 1) k maxlen stoplen
          (λ j l e. live (suc j) (omega (arith, l)) (ap src (omega arith) ∙ e))
          (ap src (omega arith) ∙ z) (omega (arith, lm)) (omega (arith, lt)))
    ∙ ap (λ n. (span src i (suc (suc k)), got n)) {x = i + 1 + suc k} {y = i + suc (suc k)}
        (omega arith)

copystr_loop-short :
    (src : ℕ → ℕ) (i maxlen stoplen : ℕ)
    → ((j : ℕ) → j < maxlen → j < stoplen → src (i + j) ≢ 0)
    → copystr_loop src i maxlen stoplen
      ≡ (span src i (min maxlen stoplen), err (if ltb stoplen maxlen then efault else enametoolong))
unfolding copystr_loop
copystr_loop-short src i zero stoplen live = ground arith
copystr_loop-short src i (suc maxlen) zero live = ground arith
copystr_loop-short src i (suc maxlen) (suc stoplen) live =
    let ne : src i ≢ 0 = λ e. live 0 (omega arith) (omega arith) (ap src (omega arith) ∙ e) in
    copystr_loop-next src i maxlen stoplen ne
    ∙ ap (λ r. (src i ∷ r.0, r.1))
        (copystr_loop-short src (i + 1) maxlen stoplen λ j lm lt e.
          live (suc j) (omega (arith, lm)) (omega (arith, lt)) (ap src (omega arith) ∙ e))
    ∙ ground arith

-- copystr copies a string with its null byte, and tells their number, if both limits leave room for it.
-- Otherwise it copies up to the smaller limit, and returns EFAULT if that is the end of user memory, else
-- ENAMETOOLONG.
pub copystr_lem :
    (src : ℕ → ℕ) (k maxlen stoplen : ℕ)
    → ((j : ℕ) → j < k → src j ≢ 0)
    → src k ≡ 0
    → (k < min maxlen stoplen → copystr src maxlen stoplen ≡ (span src 0 (suc k), got (suc k)))
      × (min maxlen stoplen ≤ k
          → copystr src maxlen stoplen ≡ (
            span src 0 (min maxlen stoplen),
            err (if ltb stoplen maxlen then efault else enametoolong),
          ))
unfolding copystr
copystr_lem src k maxlen stoplen live z = (
  λ lt.
      copystr_loop-fits src 0 k maxlen stoplen (λ j l e. live j l (ap src (omega arith) ∙ e))
        (ap src (omega arith) ∙ z) (omega (arith, lt)) (omega (arith, lt))
      ∙ ap (λ n. (span src 0 (suc k), got n)) {x = 0 + suc k} {y = suc k} (omega arith),
  λ ge.
      copystr_loop-short src 0 maxlen stoplen
        λ j lm lt e. live j (omega (arith, lm, lt, ge)) (ap src (omega arith) ∙ e),
)
