-- ===== src/Ssd/Lock.antt =====
-- `p36_ssd_memory_lock_acquire` and `p36_ssd_memory_lock_release`. The kernel's answers are
-- arguments: whether `mmap` succeeds, and whether `mlock` succeeds at an offset. What the process
-- holds is counted in bytes; touching the pages writes into the block alone.
use preon_star.Base.{
  Bool, false, if◌then◌else◌, ltb, min, not, suc, true, zero, ℕ, ◌%◌, ◌*◌, ◌+◌, ◌-◌, ◌/◌, ◌==◌, ◌^◌,
  ◌||◌, ◌≤◌,
}

-- `p36_ssd_memory_lock`, and the bytes that stay mapped and locked
pub record Held : Type 0 where
  pub lock_bytes : ℕ
  pub mapped : ℕ
  pub locked : ℕ

abbrev pub nothing : Held
nothing = record { lock_bytes = 0; mapped = 0; locked = 0 }

abbrev pub chunk_bytes : ℕ
chunk_bytes = 256 * 1024 * 1024

-- The end of the loop over `off`, with the bytes locked by then. `fuel` is the model's own.
pub data Outcome : Type 0 where
  all refused fuel : ℕ → Outcome

module _ (size : ℕ) (mlock : ℕ → Bool) where
  unfoldable pub lock_from : ℕ → ℕ → ℕ → Outcome
  lock_from zero off locked = fuel locked
  lock_from (suc f) off locked =
      let len = min (size - off) chunk_bytes in
      let rest = lock_from f ((off + chunk_bytes) % 2 ^ 64) (locked + len) in
      if ltb off size then (if mlock off then rest else refused locked) else all locked

  -- What the call returns and what is held after it: a refused chunk is answered by `munlock` of
  -- the bytes that were locked and by `munmap` of the whole.
  abbrev pub settle : Outcome → Bool × Held
  settle (all n) = (true, record { lock_bytes = size; mapped = size; locked = n })
  settle (refused n) = (false, record { lock_bytes = 0; mapped = size - size; locked = n - n })
  settle (fuel n) = (false, record { lock_bytes = 0; mapped = size; locked = n })

  unfoldable pub acquire : Bool → Bool × Held
  acquire mmap =
      if size == 0
      then (true, nothing)
      else if ltb (2 ^ 64 - 1) size || not mmap
      then (false, nothing)
      else settle (lock_from (size / chunk_bytes + 2) 0 0)

-- nothing is done for an empty lock
unfoldable pub release : Held → Held
release h = if h.lock_bytes == 0 then h else record {
  lock_bytes = 0;
  mapped = h.mapped - h.lock_bytes;
  locked = h.locked - h.lock_bytes;
}

module _ (size : ℕ) (mlock : ℕ → Bool) (fits : size ≤ 2 ^ 63) where
  abbrev pub whole : Held
  whole = record { lock_bytes = size; mapped = size; locked = size }
