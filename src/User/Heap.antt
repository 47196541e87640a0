-- ===== src/User/Heap.antt =====
-- The heap of a process, user/libc/src/sys/uheap.c: the block list of the kernel's heap over the limit
-- that the `brk` call moves.
pub mod Grow
pub mod Alloc
pub mod Free
pub mod Resize
use sirius_education.Common.{
  ℕ, zero, suc, ◌+◌, ◌-◌, ◌*◌, ◌/◌, ◌%◌, ◌^◌, ◌≡◌, ◌≤◌, ◌<◌, ◌⊎◌, Bool, true, false, Option, none,
  some, List, [], ◌∷◌, ltb, leb, ◌==◌, if◌then◌else◌,
}
use sirius_education.Common.Word.{add64, sub64, mul64, page_size}
use sirius_education.Mm.Blocks.{
  Block, header_size, align16, best_fit, carve, append_space, appended, release, coalesce,
}
use sirius_education.Mm.Frames.{Outcome, done, fault, out_of_fuel}

-- The call `syscall1(SYS_BRK, address)` and the limit behind it: 0 asks for the limit, another address
-- moves the limit there or leaves it, and the answer is the limit afterwards.
pub record Break : Type 1 where
  pub State : Type 0
  pub brk : ℕ → State → ℕ × State
  pub limit : State → ℕ
  pub brk-limit : (st : State) → (brk 0 st).0 ≡ limit st
  pub brk-asked : (st : State) → limit (brk 0 st).1 ≡ limit st
  pub brk-answer : (address : ℕ) (st : State) → (brk address st).0 ≡ limit (brk address st).1
  pub brk-moves :
      (address : ℕ) (st : State)
      → (limit (brk address st).1 ≡ limit st) ⊎ (limit (brk address st).1 ≡ address)

-- `g_uheap_start` (the list, empty for null) and `g_uheap_current_end`
pub record UHeap : Type 0 where
  pub blocks : List Block
  pub current_end : ℕ

-- The static state of a process that starts.
abbrev pub cold : UHeap
cold = record { blocks = []; current_end = 0 }

-- The steps by which the heap grows.
abbrev pub standard : ℕ
standard = 16 * 1024

-- `initial_expansion`
unfoldable pub initial_expansion : ℕ → ℕ
initial_expansion size =
    if ltb (standard - header_size) size
    then add64 (add64 size header_size) 15 / 16 * 16
    else standard

-- `expansion_size`
unfoldable pub expansion_size : ℕ → ℕ
expansion_size size =
    if ltb standard (add64 size header_size)
    then add64 (add64 size header_size) (page_size - 1) / page_size * page_size
    else standard

module _ (kernel : Break) where
  open kernel use {State, brk, limit}

  -- `sbrk_user`; `none` for (void*)-1.
  unfoldable pub sbrk_user : ℕ → State → Option ℕ × State
  sbrk_user increment st =
      let (current, st1) = brk 0 st in
      let (result, st2) = brk (add64 current increment) st1 in
      if increment == 0
      then (some current, st1)
      else if result == current
      then (none, st2)
      else (some current, st2)

  -- Step 1 of `umalloc`, for a heap that has not started (`sbrk_user(0)` is `brk` of 0); false for a
  -- return of null.
  unfoldable pub start : ℕ → State → Bool × UHeap × State
  unfolding sbrk_user initial_expansion
  start size st =
      let (base, st1) = brk 0 st in
      let (space, st2) = sbrk_user (initial_expansion size) st1 in
      if base == 2 ^ 64 - 1 then (false, cold, st1) else elim space [
        | none ↦ (false, cold, st2)
        | some first_space ↦ (
          true,
          record {
            blocks =
                record {
                  addr = first_space;
                  size = sub64 (initial_expansion size) header_size;
                  is_free = true;
                }
                ∷ [];
            current_end = add64 first_space (initial_expansion size);
          },
          st2,
        )
      ]

  -- Step 3: new space at the end of the list; `none` for a return of null, else the chosen block.
  unfoldable pub expand : ℕ → Block → List Block → UHeap → State → Option ℕ × UHeap × State
  unfolding sbrk_user expansion_size
  expand size b bs h st =
      let (space, st') = sbrk_user (expansion_size size) st in
      elim space [
        | none ↦ (none, h, st')
        | some allocated_space ↦
            let new : Block = record {
              addr = allocated_space;
              size = sub64 (expansion_size size) header_size;
              is_free = true;
            } in
            (
              some (appended b bs new),
              record {
                blocks = append_space b bs new;
                current_end = add64 allocated_space (expansion_size size);
              },
              st',
            )
      ]

  -- Step 4 on the block of a growth.
  unfoldable pub take_grown : ℕ → Option ℕ × UHeap × State → ℕ × UHeap × State
  take_grown size (none, h, st) = (0, h, st)
  take_grown size (some a, h, st) =
      (add64 a header_size, record h { blocks = carve a size h.blocks }, st)

  -- Steps 2 to 4 on a heap that has started: the pointer, 0 for null.
  unfoldable pub serve : ℕ → UHeap → State → ℕ × UHeap × State
  unfolding expand take_grown
  serve size h st = elim (best_fit size h.blocks 0xFFFFFFFFFFFFFFFF none) [
    | some a ↦ (add64 a header_size, record h { blocks = carve a size h.blocks }, st)
    | none ↦ elim h.blocks [ [] ↦ (0, h, st) | b ∷ bs ↦ take_grown size (expand size b bs h st) ]
  ]

  -- `umalloc` of a size that has been rounded.
  unfoldable pub umalloc_rounded : ℕ → UHeap → State → ℕ × UHeap × State
  unfolding start serve
  umalloc_rounded size h st = elim h.blocks [
    | [] ↦
        let started = start size st in
        if started.0 then serve size (started.1) (started.2) else (0, h, started.2)
    | b ∷ bs ↦ serve size h st
  ]

  -- `umalloc`
  unfoldable pub umalloc : ℕ → UHeap → State → ℕ × UHeap × State
  unfolding umalloc_rounded
  umalloc size h st = if size == 0 then (0, h, st) else umalloc_rounded (align16 size) h st

-- `ufree`; a pointer behind no header of the list would write elsewhere, and is a fault here.
unfoldable pub ufree : ℕ → UHeap → Outcome UHeap
ufree ptr h = if ptr == 0 then done h else elim (release (sub64 ptr header_size) h.blocks) [
  | none ↦ fault
  | some bs ↦ done (record h { blocks = coalesce bs })
]

-- The bytes of the address space.
abbrev pub Memory : Type 0
Memory = ℕ → ℕ

abbrev pub write : Memory → ℕ → ℕ → Memory
write m a v = λ x. if x == a then v else m x

-- `u_memset`
unfoldable pub u_memset : Memory → ℕ → ℕ → ℕ → Memory
u_memset m dest val zero = m
u_memset m dest val (suc len) = u_memset (write m dest val) (dest + 1) val len

-- `u_memcpy`
unfoldable pub u_memcpy : Memory → ℕ → ℕ → ℕ → Memory
u_memcpy m dest src zero = m
u_memcpy m dest src (suc len) = u_memcpy (write m dest (m src)) (dest + 1) (src + 1) len

-- `header->size` of the header at an address; `none` where none lies.
unfoldable pub size_at : ℕ → List Block → Option ℕ
size_at a [] = none
size_at a (b ∷ bs) = let rest = size_at a bs in if b.addr == a then some b.size else rest

module _ (kernel : Break) where
  open kernel use {State}

  -- What a call answers and leaves.
  pub record Result : Type 0 where
    pub pointer : ℕ
    pub memory : Memory
    pub heap : UHeap
    pub state : State

  -- `ucalloc`
  unfoldable pub ucalloc : ℕ → ℕ → Memory → UHeap → State → Result
  ucalloc num size m h st =
      let total_size = mul64 num size in
      let (ptr, h', st') = umalloc kernel total_size h st in
      record {
        pointer = ptr;
        memory = if ptr == 0 then m else u_memset m ptr 0 total_size;
        heap = h';
        state = st';
      }

  -- The move of `urealloc` to a block that `umalloc` has answered.
  unfoldable pub move : ℕ → ℕ → Memory → ℕ × UHeap × State → Outcome Result
  move ptr old_size m (new_ptr, h, st) =
      if new_ptr == 0
      then done (record { pointer = 0; memory = m; heap = h; state = st })
      else elim (ufree ptr h) [
        | done h' ↦ done (record {
          pointer = new_ptr;
          memory = u_memcpy m new_ptr ptr old_size;
          heap = h';
          state = st;
        })
        | fault ↦ fault
        | out_of_fuel ↦ out_of_fuel
      ]

  -- `urealloc`
  unfoldable pub urealloc : ℕ → ℕ → Memory → UHeap → State → Outcome Result
  unfolding move
  urealloc ptr new_size m h st =
      if ptr == 0
      then (let (new_ptr, h', st') = umalloc kernel new_size h st in
          done (record { pointer = new_ptr; memory = m; heap = h'; state = st' }))
      else if new_size == 0
      then elim (ufree ptr h) [
        | done h' ↦ done (record { pointer = 0; memory = m; heap = h'; state = st })
        | fault ↦ fault
        | out_of_fuel ↦ out_of_fuel
      ]
      else elim (size_at (sub64 ptr header_size) h.blocks) [
        | none ↦ fault
        | some old_size ↦
            if leb new_size old_size
            then done (record { pointer = ptr; memory = m; heap = h; state = st })
            else move ptr old_size m (umalloc kernel new_size h st)
      ]
