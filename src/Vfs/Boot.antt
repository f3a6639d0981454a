-- ===== src/Vfs/Boot.antt =====
-- os161/kern/fs/vfs/vfslookup.c: vfs_setbootfs on names with a colon, and getdevice on paths
-- with a device.
use azurespider.Prelude.{
  ap₂, subst, ◌∙◌, inr, ap, inl, ℕ, zero, suc, not, replicate, ◌+◌, ◌<◌, ◌≡◌, refl, Bool, true,
  false, Bool-cases, some, List, [], ◌∷◌, ◌++◌, take, drop, length, ◌==◌, if◌then◌else◌, arith, ok,
  ◌>>=◌,
}
use azurespider.Errno.{einval}
use azurespider.Vnode.{VfsState, Vops}
use azurespider.Vfs.Cwd.{getcurdir}
use azurespider.Vfs.Lookup.{
  Mark, no_mark, slash_at, colon, slash, colon_at, first_mark, skip_slashes, has_char, from_char,
  start_at, getdevice, setbootfs,
}

from_char-some : (c : ℕ) (s : List ℕ) → has_char c s ≡ true → 0 < length (from_char c s)
unfolding has_char from_char
from_char-some c [] e = absurd (ground (arith, e))
from_char-some c (d ∷ s) e = elim (Bool-cases (d == c)) [
  | inl hit ↦ rw hit (omega arith)
  | inr miss ↦ rw miss (from_char-some c s (rw miss at e))
]

-- vfs_setbootfs refuses every name that has a colon among its first 254 characters, also at the
-- end, and leaves everything as it was.
pub setbootfs-colon :
    {D : Type 0} (ops : Vops D) (fsname : List ℕ) (s : VfsState D)
    → has_char colon (take 254 fsname) ≡ true
    → setbootfs ops fsname s ≡ ok (some einval, s)
unfolding setbootfs
setbootfs-colon ops fsname s e =
    let pos = from_char-some colon (take 254 fsname) e in ground (arith, e, pos)

-- A name without a mark in it.
abbrev pub plain : List ℕ → Bool
plain [] = true
plain (c ∷ cs) = if c == colon then false else if c == slash then false else plain cs

first_mark-plain :
    (i : ℕ) (name rest : List ℕ)
    → plain name ≡ true
    → first_mark i (name ++ colon ∷ rest) ≡ colon_at (i + length name)
unfolding first_mark
first_mark-plain i [] rest e = ap colon_at (omega arith)
first_mark-plain i (c ∷ name) rest e = elim (Bool-cases (c == colon)) [
  | inl hit ↦ absurd (ground (arith, e, hit))
  | inr no_colon ↦ elim (Bool-cases (c == slash)) [
    | inl hit ↦ absurd (ground (arith, e, hit, no_colon))
    | inr no_slash ↦
        rw (no_colon, no_slash)
          (first_mark-plain (i + 1) name rest (rw (no_colon, no_slash) at e)
            ∙ ap colon_at (omega arith))
  ]
]

take-device : (name rest : List ℕ) → take (length name) (name ++ rest) ≡ name
take-device [] rest = refl
take-device (c ∷ name) rest = ap (◌∷◌ c) (take-device name rest)

drop-device : (name rest : List ℕ) → drop (suc (length name)) (name ++ colon ∷ rest) ≡ rest
drop-device [] rest = refl
drop-device (c ∷ name) rest = drop-device name rest

-- A path that does not start with a slash.
abbrev pub relative : List ℕ → Bool
relative [] = true
relative (c ∷ path) = not (c == slash)

slashes_skipped :
    (n : ℕ) (path : List ℕ) → relative path ≡ true → skip_slashes (replicate n slash ++ path) ≡ path
unfolding skip_slashes
slashes_skipped zero [] e = refl
slashes_skipped zero (c ∷ path) e = ground (arith, e)
slashes_skipped (suc n) path e = slashes_skipped n path e

-- A path "name:" with a name that has no colon and no slash, then n slashes, then a rest that does
-- not start with a slash, starts at the root of the device of that name, and goes on with that rest.
pub getdevice_named :
    {D : Type 0} (ops : Vops D) (c n : ℕ) (name rest : List ℕ) (s : VfsState D)
    → plain (c ∷ name) ≡ true
    → relative rest ≡ true
    → getdevice ops ((c ∷ name) ++ colon ∷ (replicate n slash ++ rest)) s
      ≡ (ops.vfs_getroot (c ∷ name) s >>= λ r. ok (r.0, rest, r.1))
unfolding getdevice start_at
getdevice_named ops c n name rest s e f =
    let tail_ = replicate n slash ++ rest in
    let path = (c ∷ name) ++ colon ∷ tail_ in
    let mark : first_mark 0 path ≡ colon_at (suc (length name)) =
      first_mark-plain 0 (c ∷ name) tail_ e ∙ ap colon_at (omega arith) in
    ap (λ m. start_at ops m path s) mark
    ∙ ap₂ (λ t d. ops.vfs_getroot t s >>= λ r. ok (r.0, d, r.1))
        (take-device (c ∷ name) (colon ∷ tail_))
        (ap skip_slashes (drop-device (c ∷ name) tail_) ∙ slashes_skipped n rest f)

-- What may follow the first component of a path: nothing, or a slash.
abbrev pub cuts : List ℕ → Bool
cuts [] = true
cuts (c ∷ path) = c == slash

-- A mark that does not name a device or a root.
abbrev inner : Mark → Bool
inner no_mark = true
inner (slash_at (suc i)) = true
inner m = false

first_mark-inner :
    (i : ℕ) (name rest : List ℕ)
    → plain name ≡ true
    → cuts rest ≡ true
    → inner (first_mark (suc i) (name ++ rest)) ≡ true
unfolding first_mark
first_mark-inner i [] [] e f = refl
first_mark-inner i [] (c ∷ rest) e f = ground (arith, f)
first_mark-inner i (c ∷ name) rest e f = elim (Bool-cases (c == colon)) [
  | inl hit ↦ absurd (ground (arith, e, hit))
  | inr no_colon ↦ elim (Bool-cases (c == slash)) [
    | inl hit ↦ absurd (ground (arith, e, hit, no_colon))
    | inr no_slash ↦
        rw (no_colon, no_slash)
          (subst (λ j. inner (first_mark j (name ++ rest)) ≡ true) {x = suc (i + 1)} {y = suc i + 1}
            (omega arith) (first_mark-inner (i + 1) name rest (rw (no_colon, no_slash) at e) f))
  ]
]

start_at-inner :
    {D : Type 0} (ops : Vops D) (mark : Mark) (path : List ℕ) (s : VfsState D)
    → inner mark ≡ true
    → start_at ops mark path s ≡ (getcurdir s >>= λ r. ok (r.0, path, r.1))
unfolding start_at
start_at-inner ops no_mark path s e = refl
start_at-inner ops (slash_at zero) path s e = cc
start_at-inner ops (slash_at (suc i)) path s e = refl
start_at-inner ops (colon_at i) path s e = cc

-- A path whose first component is not empty and has no colon starts at the current directory, with
-- all of the path, whatever colons there are behind the first slash.
pub getdevice_relative :
    {D : Type 0} (ops : Vops D) (c : ℕ) (name rest : List ℕ) (s : VfsState D)
    → plain (c ∷ name) ≡ true
    → cuts rest ≡ true
    → getdevice ops ((c ∷ name) ++ rest) s
      ≡ (getcurdir s >>= λ r. ok (r.0, (c ∷ name) ++ rest, r.1))
unfolding getdevice first_mark
getdevice_relative ops c name rest s e f = elim (Bool-cases (c == colon)) [
  | inl hit ↦ absurd (ground (arith, e, hit))
  | inr no_colon ↦ elim (Bool-cases (c == slash)) [
    | inl hit ↦ absurd (ground (arith, e, hit, no_colon))
    | inr no_slash ↦
        start_at-inner ops (first_mark 0 ((c ∷ name) ++ rest)) ((c ∷ name) ++ rest) s
          (rw (no_colon, no_slash) (first_mark-inner 0 name rest (rw (no_colon, no_slash) at e) f))
  ]
]
