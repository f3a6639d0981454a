-- ===== src/Queue.antt =====
-- os161/kern/lib/queue.c: a queue of pointers in a ring buffer that grows.
-- A kmalloc() is an argument `kmalloc : ℕ → Bool`, whether a request of so many bytes succeeds. Its
-- block has as many cells as the bytes asked for give room to, and `junk` stands for what they hold.
pub mod Holds
pub mod Grow
pub mod Refine
mod Tests
use azurespider.Prelude.{
  ℕ, zero, suc, ◌+◌, ◌*◌, ◌/◌, ◌%◌, ◌^◌, Bool, not, Option, none, some, List, ltb, ◌==◌,
  if◌then◌else◌, length, get_elem?, set, replicate, Run, ok, panic, fault, timeout, ◌>>=◌, ◌>>◌,
  assert, in_range,
}
use azurespider.Errno.{Code, is_ok, enomem}

-- struct queue
pub record Queue {ℓ} (A : Type ℓ) : Type ℓ where
  pub size : ℕ
  pub nextwrite : ℕ
  pub nextread : ℕ
  pub data_ : List A

-- Cells in the block that kmalloc(n * sizeof(void *)) returns: the product is a 32-bit size_t.
abbrev pub cells : ℕ → ℕ
cells n = n * 4 % 2 ^ 32 / 4

-- The loop of q_grow that doubles nsize. An int that doubles past 2^31 - 1 turns negative or zero,
-- which the assert catches.
pub grow_size : ℕ → ℕ → ℕ → Run ℕ
grow_size zero nsize targetsize = if ltb nsize targetsize then timeout else ok nsize
grow_size (suc fuel) nsize targetsize =
    let rest = grow_size fuel (nsize * 2) targetsize in
    if ltb nsize targetsize then (if ltb (nsize * 2) (2 ^ 31) then rest else panic) else ok nsize

module _ {ℓ} {A : Type ℓ} where
  -- q_empty
  pub is_empty : Queue A → Bool
  is_empty q = q.nextwrite == q.nextread

  -- The store q->data[q->nextwrite] = ptr; q->nextwrite = nextnext.
  pub put : Queue A → A → ℕ → Run (Code × Queue A)
  put q x nextnext =
      if ltb q.nextwrite (length q.data_)
      then ok (none, record q { data_ = set q.data_ q.nextwrite x; nextwrite = nextnext })
      else fault

  -- The loop of q_grow that moves the old cells over, by q_addtail.
  pub copy : (Queue A → A → Run (Code × Queue A)) → ℕ → List A → ℕ → ℕ → ℕ → Queue A → Run (Queue A)
  copy add zero olddata osize i onw q = if i == onw then ok q else timeout
  copy add (suc fuel) olddata osize i onw q =
      let rest = (do
        x ← in_range (get_elem? olddata i)
        (result, q') ← add q x
        assert (is_ok result)
        copy add fuel olddata osize ((i + 1) % osize) onw q') in
      if i == onw then ok q else rest

  -- q_grow, given the q_addtail that it calls. The kfree of the old block touches no field.
  pub grow :
      (Queue A → A → Run (Code × Queue A)) → (ℕ → Bool) → A → Queue A → ℕ → Run (Code × Queue A)
  grow add kmalloc junk q targetsize = do
    nsize ← grow_size targetsize q.size targetsize
    if kmalloc (nsize * 4 % 2 ^ 32)
        then (do
          q' ← copy add q.size q.data_ q.size q.nextread q.nextwrite (record {
            size = nsize;
            nextwrite = 0;
            nextread = 0;
            data_ = replicate (cells nsize) junk;
          })
          ok (none, q'))
        else ok (some enomem, q)

  -- q_addtail, in which at most `depth` calls of q_addtail are active at once.
  pub addtail_at : ℕ → (ℕ → Bool) → A → Queue A → A → Run (Code × Queue A)
  addtail_at zero kmalloc junk q x = timeout
  addtail_at (suc depth) kmalloc junk q x = do
    assert (ltb 0 q.size)
    let nextnext = (q.nextwrite + 1) % q.size
    let grown = grow (addtail_at depth kmalloc junk) kmalloc junk q (q.size + 1)
    if nextnext == q.nextread
        then (do
          (result, q') ← grown
          elim result [ some e ↦ ok (some e, q') | none ↦ put q' x ((q'.nextwrite + 1) % q'.size) ])
        else put q x nextnext

  pub addtail : (ℕ → Bool) → A → Queue A → A → Run (Code × Queue A)
  addtail = addtail_at 2

  -- q_create: none is NULL.
  pub create : (ℕ → Bool) → A → ℕ → Option (Queue A)
  create kmalloc junk size =
      if kmalloc 16
      then if kmalloc (size * 4 % 2 ^ 32)
        then some (record {
          size = size;
          nextwrite = 0;
          nextread = 0;
          data_ = replicate (cells size) junk;
        })
        else none
      else none

  pub preallocate : (ℕ → Bool) → A → Queue A → ℕ → Run (Code × Queue A)
  preallocate kmalloc junk q size = do
    assert (ltb 0 q.size)
    if ltb q.size size then grow (addtail kmalloc junk) kmalloc junk q size else ok (none, q)

  pub remhead : Queue A → Run (A × Queue A)
  remhead q = do
    assert (ltb 0 q.size)
    assert (not (is_empty q))
    ret ← in_range (get_elem? q.data_ q.nextread)
    ok (ret, record q { nextread = (q.nextread + 1) % q.size })

  -- q_destroy: the frees leave nothing to model.
  pub destroy : Queue A → Run (Unit {0})
  destroy q = assert (is_empty q)

  -- q_getguy, whose index is an int that the code holds to be at least 0.
  pub getguy : Queue A → ℕ → Run A
  getguy q index = do assert (ltb index q.size); in_range (get_elem? q.data_ index)
