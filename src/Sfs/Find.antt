-- ===== src/Sfs/Find.antt =====
-- os161/kern/fs/sfs/sfs_vnode.c: sfs_dir_nentries and sfs_dir_findname.
use azurespider.Prelude.{
  ℕ, zero, suc, ◌+◌, ◌*◌, ◌/◌, ◌%◌, ◌<◌, ◌≡◌, ◌⊎◌, Bool, true, false, not, ◌&&◌, Option, none, some,
  List, [], ◌∷◌, ◌==◌, if◌then◌else◌, get_or, set, take, drop, Run, ok, panic, ◌>>=◌, ◌>>◌, assert,
}
use azurespider.Uio.Copy.{UserMemory}
use azurespider.Errno.{Errno, enoent, Code, err, got}
use azurespider.Uio.Span.{span}
use azurespider.Sfs.{Device, Sfs, SfsVnode}
use azurespider.Sfs.Words.{words_of}
use azurespider.Sfs.Look.{byte_at}
use azurespider.Sfs.Dir.{readdir}

-- A string up to its null byte, and strcmp(a, b) == 0.
unfoldable pub c_string : List ℕ → List ℕ
c_string [] = []
c_string (zero ∷ bytes) = []
c_string (suc c ∷ bytes) = suc c ∷ c_string bytes

unfoldable pub same_string : List ℕ → List ℕ → Bool
same_string [] [] = true
same_string [] (y ∷ ys) = false
same_string (x ∷ xs) [] = false
same_string (x ∷ xs) (y ∷ ys) = x == y && same_string xs ys

-- The fields of a struct sfs_dir, with the last byte of the name set to 0.
unfoldable pub sfd_ino : List ℕ → ℕ
sfd_ino tsd = get_or (words_of (take 4 tsd)) 0 0

unfoldable pub sfd_name : List ℕ → List ℕ
sfd_name tsd = c_string (drop 4 (set tsd 63 0))

-- Whether a slot is free, and whether it has the name.
unfoldable pub is_free : List ℕ → Bool
is_free tsd = sfd_ino tsd == 0

unfoldable pub has_name : List ℕ → List ℕ → Bool
has_name name tsd = not (is_free tsd) && same_string (sfd_name tsd) name

-- sfs_dir_nentries
unfoldable pub dir_nentries : SfsVnode → Run ℕ
dir_nentries sv = do
  assert (sv.sv_i.sfi_type == 2)
  if sv.sv_i.sfi_size % 64 == 0 then ok (sv.sv_i.sfi_size / 64) else panic

-- What sfs_dir_findname hands back: inode number and slot of the name, and a free slot.
abbrev pub Found : Type 0
Found = Option (ℕ × ℕ) × Option ℕ

abbrev pub is_found : Option (ℕ × ℕ) → Bool
is_found none = false
is_found (some x) = true

module _ (dev : Device) (mem : UserMemory) (vmspace base : ℕ) (name : List ℕ) where
  -- The loop of sfs_dir_findname from slot i on; `old` is what tsd holds.
  unfoldable pub find_loop :
      ℕ
      → ℕ
      → List ℕ
      → Option (ℕ × ℕ)
      → Option ℕ
      → SfsVnode
      → Sfs
      → Run (Code × Found × SfsVnode × Sfs)
  find_loop zero i old found emptyslot sv s = ok (none, (found, emptyslot), sv, s)
  find_loop (suc rounds) i old found emptyslot sv s = do
    (result, sv1, s1) ← readdir dev mem vmspace base old i sv s
    elim result [
      | err e ↦ ok (some e, (found, emptyslot), sv1, s1)
      | got tsd ↦ (do
        assert (not (has_name name tsd && is_found found))
        find_loop rounds (i + 1) (if is_free tsd then tsd else set tsd 63 0)
            (if has_name name tsd then some (sfd_ino tsd, i) else found)
            (if is_free tsd then some i else emptyslot) sv1 s1)
    ]

  -- sfs_dir_findname, where tsd holds `old` at first.
  unfoldable pub dir_findname : List ℕ → SfsVnode → Sfs → Run (Code × Found × SfsVnode × Sfs)
  dir_findname old sv s = do
    nentries ← dir_nentries sv
    (result, slots, sv1, s1) ← find_loop nentries 0 old none none sv s
    elim result [
      | some e ↦ ok (some e, slots, sv1, s1)
      | none ↦ ok (if is_found slots.0 then none else some enoent, slots, sv1, s1)
    ]

  -- The slot k of a directory.
  abbrev pub slot_of : Sfs → SfsVnode → ℕ → List ℕ
  slot_of s sv k = span (byte_at s sv) (k * 64) 64

  -- What is known of the first n slots: the slot of the name, or that there is none, and a free slot,
  -- or that there is none.
  abbrev pub Searched : Sfs → SfsVnode → ℕ → Option (ℕ × ℕ) → Option ℕ → Type 0
  Searched s sv n found emptyslot =
      (((found ≡ none) × ((k : ℕ) → k < n → has_name name (slot_of s sv k) ≡ false))
        ⊎ ((k : ℕ) × (k < n)
            × (found ≡ some (sfd_ino (slot_of s sv k), k))
            × (has_name name (slot_of s sv k) ≡ true)))
      × (((emptyslot ≡ none) × ((k : ℕ) → k < n → is_free (slot_of s sv k) ≡ false))
          ⊎ ((k : ℕ) × (k < n) × (emptyslot ≡ some k) × (is_free (slot_of s sv k) ≡ true)))

  -- No two of the first n slots have the name.
  abbrev pub IsUnique : Sfs → SfsVnode → ℕ → Type 0
  IsUnique s sv n =
      (j k : ℕ)
      → j < n
      → k < n
      → has_name name (slot_of s sv j) ≡ true
      → has_name name (slot_of s sv k) ≡ true
      → j ≡ k
