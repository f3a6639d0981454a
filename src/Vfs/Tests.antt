-- ===== src/Vfs/Tests.antt =====
-- os161/kern/fs/vfs: runs and theorems on a file system with one directory.
use azurespider.Vfs.OneDir.{Store, ops, booted, no_vnode, booted-Sound, booted-Anchored}
use azurespider.Prelude.{
  ◌>>=◌, ℕ, ◌≡◌, refl, true, some, [], ◌∷◌, arith, Run, ok, panic, fault, timeout,
}
use azurespider.Vfs.Cwd.{drop_old, clearcurdir, getcurdir}
use azurespider.Errno.{Answer, got, einval}
use azurespider.Vnode.{kill, init, decref, incref, check, incopen}
use azurespider.Vnode.Held.{take_refs, give_back, Counted, give_back-take_refs}
use azurespider.Vnode.Counts.{nil, refs, unchanged}
use azurespider.Vfs.Contract.{Anchored}
use azurespider.Vfs.Walk.{still-Anchored}
use azurespider.Vfs.Boot.{setbootfs-colon, getdevice_named, getdevice_relative}
use azurespider.Vfs.Path.{truncate_new, canwrite, open_vnode, open_found, open_path}
use azurespider.Vfs.Lookup.{
  change_bootfs, clearbootfs, setbootfs, has_char, first_mark, start_at, getdevice, lookup,
}

booted-Anchored_one : Anchored booted 1
booted-Anchored_one =
    still-Anchored booted booted nil nil 1 1 booted-Anchored (unchanged booted booted-Sound)
      λ u. omega arith

abbrev store_of : Run (Answer ℕ × Store) → Store
store_of (ok (answer, s)) = s
store_of panic = booted
store_of fault = booted
store_of timeout = booted

abbrev opened : Store
opened = store_of (open_path ops (97 ∷ []) 1 booted)

opened_lem : open_path ops (97 ∷ []) 1 booted ≡ ok (got 1, opened)
unfolding open_path open_found open_vnode canwrite truncate_new lookup getdevice start_at first_mark
    incopen check getcurdir incref decref
opened_lem = refl

-- "a:"
setbootfs-colon_example : setbootfs ops (97 ∷ 58 ∷ []) booted ≡ ok (some einval, booted)
unfolding has_char
setbootfs-colon_example = setbootfs-colon ops (97 ∷ 58 ∷ []) booted refl

-- "a://b"
getdevice_named_example :
    getdevice ops (97 ∷ 58 ∷ 47 ∷ 47 ∷ 98 ∷ []) booted
    ≡ (ops.vfs_getroot (97 ∷ []) booted >>= λ r. ok (r.0, 98 ∷ [], r.1))
getdevice_named_example = getdevice_named ops 97 2 [] (98 ∷ []) booted refl refl

-- "a/b:"
getdevice_relative_example :
    getdevice ops (97 ∷ 47 ∷ 98 ∷ 58 ∷ []) booted
    ≡ (getcurdir booted >>= λ r. ok (r.0, 97 ∷ 47 ∷ 98 ∷ 58 ∷ [], r.1))
getdevice_relative_example = getdevice_relative ops 97 [] (47 ∷ 98 ∷ 58 ∷ []) booted refl refl

give_back-take_refs_example :
    (t : Store) × ((take_refs ops 1 3 booted >>= λ s. give_back ops 1 3 s) ≡ ok t)
    × Counted ops 1 booted t (booted.vnodes 1).vn_refcount
give_back-take_refs_example = give_back-take_refs ops 1 3 booted refl (omega arith) (omega arith)

-- Leaving the current directory gives one of the two references back; with the boot file system
-- cleared, none is left.
clears : (clearcurdir ops booted >>= λ r. clearbootfs ops (r.1) >>= λ s. ok (refs s 1)) ≡ ok 0
unfolding clearcurdir clearbootfs change_bootfs drop_old decref check
clears = refl

-- A vnode that was just made can be killed.
kill-init : (init true true (some 7) 0 no_vnode >>= λ r. kill (r.1)) ≡ ok no_vnode
unfolding init kill
kill-init = refl
