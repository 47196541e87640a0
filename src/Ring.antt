-- ===== src/Ring.antt =====
-- The circular buffers of bytes of kernel/drivers/tty/tty.c (one slot stays empty), and the queue that
-- each of them stands for.
pub mod Contents
use sirius_education.Common.{
  ℕ, zero, suc, ◌+◌, ◌-◌, ◌%◌, Option, none, some, List, [], ◌∷◌, ◌++◌, get_or, set, ◌==◌,
  if◌then◌else◌,
}

-- The array, the index to write next and the index to read next.
pub record Ring : Type 0 where
  pub buf : List ℕ
  pub head : ℕ
  pub tail : ℕ

module _ (n : ℕ) where
  -- One byte in; `none` when the buffer is full.
  unfoldable pub put : Ring → ℕ → Option Ring
  put r c =
      let next = (r.head + 1) % n in
      if next == r.tail then none else some (record r { buf = set r.buf r.head c; head = next })

  -- One byte out; `none` when the buffer is empty.
  unfoldable pub get : Ring → Option (ℕ × Ring)
  get r =
      if r.tail == r.head
      then none
      else some (get_or r.buf r.tail 0, record r { tail = (r.tail + 1) % n })

  -- The number of bytes held.
  unfoldable pub count : Ring → ℕ
  count r = (r.head + n - r.tail) % n

  -- The `k` bytes from index `t` on, round the end of the array.
  unfoldable pub window : List ℕ → ℕ → ℕ → List ℕ
  window buf t zero = []
  window buf t (suc k) = window buf t k ++ (get_or buf ((t + k) % n) 0 ∷ [])

  -- The queue: oldest byte first.
  unfoldable pub contents : Ring → List ℕ
  contents r = window r.buf r.tail (count r)
