-- ===== src/Synch/Mutex.antt =====
-- os161/kern/thread/synch.c: locks exclude each other's holders.
use azurespider.Prelude.{
  ℕ, ◌≡◌, refl, sym, ap, subst, ◌∙◌, ◌⊎◌, inl, inr, Bool, Bool-cases, Option, none, some, List, [],
  ◌∷◌, ◌++◌, arith, ◌==◌, Run, ok, panic, fault, timeout, ◌>>=◌,
}
use azurespider.Threads.{Threads, wakeup, sleep_out}
use azurespider.Threads.Wakeup.{on, off}
use azurespider.Threads.Switch.{Inv, wakeup-Inv}
use azurespider.Synch.{Lock, Progress, asleep, returned, acquire_loop, lock_release, release_by}
use azurespider.Synch.Waiting.{at_level, on-off}

Run-cases {ℓ} :
    {A : Type ℓ} (m : Run A)
    → ((a : A) × (m ≡ ok a)) ⊎ ((m ≡ panic) ⊎ ((m ≡ fault) ⊎ (m ≡ timeout)))
Run-cases (ok a) = inl (a, refl)
Run-cases panic = inr (inl refl)
Run-cases fault = inr (inr (inl refl))
Run-cases timeout = inr (inr (inr refl))

module _ (kmalloc : ℕ → Bool) (junk : ℕ) (addr : ℕ) where
  -- What the lock is after a pass of lock_acquire's loop.
  abbrev After : Lock → Option ℕ → Run (Progress × Lock × Threads) → Type 0
  After l cur (ok (returned, l', s')) = (l.lock_ ≡ 1) × (l'.lock_ ≡ 0) × (l'.owner ≡ cur)
  After l cur (ok (asleep, l', s')) = (l.lock_ ≡ 0) × (l' ≡ l)
  After l cur panic = Unit
  After l cur fault = Unit
  After l cur timeout = Unit

  After-block :
      (l : Lock) (cur : Option ℕ) (m : Run Threads)
      → l.lock_ ≡ 0
      → After l cur (m >>= λ s'. ok (asleep, l, s'))
  After-block l cur (ok s') e = (e, refl)
  After-block l cur panic e = tt
  After-block l cur fault e = tt
  After-block l cur timeout e = tt

  acquire_loop-After :
      (spl : ℕ) (wakes : List (Threads → Run Threads)) (l : Lock) (s : Threads)
      → After l s.curthread (acquire_loop kmalloc junk addr spl wakes l s)
  unfolding acquire_loop
  acquire_loop-After spl wakes l s = elim (Bool-cases (l.lock_ == 0)) [
    | inl taken ↦
        rw taken
          (After-block l s.curthread (sleep_out kmalloc junk addr wakes s) (ground (arith, taken)))
    | inr other ↦ elim (Bool-cases (l.lock_ == 1)) [
      | inl free ↦ rw (other, free) (ground (arith, free), refl, refl)
      | inr odd ↦ rw (other, odd) tt
    ]
  ]

  -- The life of a lock: the threads in `hs` have come back from lock_acquire and have not called
  -- lock_release since. A pass of lock_acquire's loop is the one at the call or one after a
  -- thread_sleep in it; between the calls on the lock, anything may happen to the threads.
  pub data Life : List ℕ → Lock → Threads → Type 0 where
    created : (s : Threads) → Life [] (record { lock_ = 1; owner = none }) s
    acquires :
        (hs : List ℕ) (l l' : Lock) (s s' : Threads) (cur spl : ℕ)
        (wakes : List (Threads → Run Threads))
        → Life hs l s
        → s.curthread ≡ some cur
        → acquire_loop kmalloc junk addr spl wakes l s ≡ ok (returned, l', s')
        → Life (cur ∷ hs) l' s'
    waits :
        (hs : List ℕ) (l l' : Lock) (s s' : Threads) (spl : ℕ)
        (wakes : List (Threads → Run Threads))
        → Life hs l s
        → acquire_loop kmalloc junk addr spl wakes l s ≡ ok (asleep, l', s')
        → Life hs l' s'
    releases :
        (hs : List ℕ) (l l' : Lock) (s s' : Threads) (cur : ℕ)
        → Life (cur ∷ hs) l s
        → s.curthread ≡ some cur
        → lock_release kmalloc junk addr l s ≡ ok (l', s')
        → Life hs l' s'
    others : (hs : List ℕ) (l : Lock) (s s' : Threads) → Life hs l s → Life hs l s'

  abbrev Released : Run (Lock × Threads) → Type 0
  Released (ok (l', s')) = (l'.lock_ ≡ 1) × (l'.owner ≡ none)
  Released panic = Unit
  Released fault = Unit
  Released timeout = Unit

  Released-woken :
      (m : Run Threads) (n : ℕ)
      → Released (m >>= λ s'. ok (record { lock_ = 1; owner = none }, record s' { curspl = n }))
  Released-woken (ok s') n = (refl, refl)
  Released-woken panic n = tt
  Released-woken fault n = tt
  Released-woken timeout n = tt

  release_by-Released : (o : Option ℕ) (s : Threads) → Released (release_by kmalloc junk addr o s)
  unfolding release_by
  release_by-Released none s = tt
  release_by-Released (some cur) s =
      Released-woken (wakeup kmalloc junk addr (record s { curspl = 1 })) s.curspl

  lock_release-Released : (l : Lock) (s : Threads) → Released (lock_release kmalloc junk addr l s)
  unfolding lock_release
  lock_release-Released l s = release_by-Released s.curthread s

  -- A lock that is free has no owner, and one that is not has the one thread that holds it.
  abbrev pub Holder : List ℕ → Lock → Type 0
  Holder hs l =
      ((hs ≡ []) × (l.lock_ ≡ 1) × (l.owner ≡ none))
      ⊎ ((t : ℕ) × (hs ≡ t ∷ []) × (l.lock_ ≡ 0) × (l.owner ≡ some t))

  -- Mutual exclusion: as long as only holders release the lock, at most one thread holds it at a time,
  -- whatever happens in between, and the fields say which.
  pub mutual_exclusion : (hs : List ℕ) (l : Lock) (s : Threads) → Life hs l s → Holder hs l
  mutual_exclusion hs l s (created s0) = inl (refl, refl, refl)
  mutual_exclusion hs l s (acquires gs k l2 s1 s2 cur spl wakes life at e) =
      let (free, taken, own) = subst (After k s1.curthread) e (acquire_loop-After spl wakes k s1) in
      elim (mutual_exclusion gs k s1 life) [
        | inl (empty, x, y) ↦ inr (cur, ap (◌∷◌ cur) empty, taken, own ∙ at)
        | inr (t, x, closed, y) ↦ absurd (omega (arith, free, closed))
      ]
  mutual_exclusion hs l s (waits gs k l2 s1 s2 spl wakes life e) =
      let (x, same) = subst (After k s1.curthread) e (acquire_loop-After spl wakes k s1) in
      subst (Holder gs) (sym same) (mutual_exclusion gs k s1 life)
  mutual_exclusion hs l s (releases gs k l2 s1 s2 cur life at e) =
      let (free, own) = subst Released e (lock_release-Released k s1) in
      elim (mutual_exclusion (cur ∷ gs) k s1 life) [
        | inl (empty, x, y) ↦ absurd (ground (arith, empty))
        | inr (t, one, x, y) ↦ inl (ground (arith, one), free, own)
      ]
  mutual_exclusion hs l s (others gs k s1 s2 life) = mutual_exclusion gs k s1 life

  -- lock_release frees the lock for every caller, whoever holds it, and makes the threads that sleep on
  -- it runnable: its check that the caller is the holder never fails.
  pub release_by_anyone :
      (l : Lock) (s : Threads) (cur : ℕ) (rs ss : List ℕ)
      → Inv s cur rs ss
      → (s' : Threads) × (lock_release kmalloc junk addr l s
          ≡ ok (record { lock_ = 1; owner = none }, s'))
        × Inv s' cur (rs ++ on s.t_sleepaddr addr ss) (off s.t_sleepaddr addr ss)
        × (on s'.t_sleepaddr addr (off s.t_sleepaddr addr ss) ≡ [])
  unfolding lock_release release_by
  release_by_anyone l s cur rs ss i =
      let (s', r, i', f) =
        wakeup-Inv kmalloc junk (record s { curspl = 1 }) cur addr rs ss (omega arith)
          (at_level s cur rs ss 1 i) in
      (
        record s' { curspl = s.curspl },
        ground (arith, i.running, r),
        at_level s' cur (rs ++ on s.t_sleepaddr addr ss) (off s.t_sleepaddr addr ss) s.curspl i',
        ap (λ g. on g addr (off s.t_sleepaddr addr ss)) f ∙ on-off s.t_sleepaddr addr ss,
      )
