-- ===== src/Mm/Blocks.antt =====
-- The block list that kernel/kernel/mm/heap.c and user/libc/src/sys/uheap.c keep: each header in list
-- order, with the address at which it lies. A pointer to a header is that address.
pub mod Chain
pub mod Best
pub mod Used
pub mod Space
use sirius_education.Common.{
  ℕ, ◌+◌, ◌-◌, ◌*◌, ◌/◌, ◌%◌, ◌^◌, Bool, true, false, ◌&&◌, Option, none, some, List, [], ◌∷◌, ltb,
  leb, ◌==◌, if◌then◌else◌,
}
use sirius_education.Common.Word.{add64, sub64}
use mathlib.Core.Option

-- `HEAP_HEADER` (and `UHEAP_HEADER`): `next` is the rest of the list.
pub record Block : Type 0 where
  pub addr : ℕ
  pub size : ℕ
  pub is_free : Bool

-- `sizeof(HEAP_HEADER)`
abbrev pub header_size : ℕ
header_size = 32

-- `(size + 15) & ~15UL`
unfoldable pub align16 : ℕ → ℕ
align16 size = add64 size 15 / 16 * 16

abbrev pub fits : ℕ → Block → Bool
fits size b = b.is_free && leb size b.size

-- The search loop: `diff` is `smallest_diff`, `best` the pointer `best_block`.
unfoldable pub best_fit : ℕ → List Block → ℕ → Option ℕ → Option ℕ
best_fit size [] diff best = best
best_fit size (b ∷ bs) diff best =
    let better = fits size b && ltb (b.size - size) diff in
    best_fit size bs (if better then b.size - size else diff) (if better then some b.addr else best)

-- The split, and the mark of the chosen block as used.
unfoldable pub take_block : ℕ → Block → List Block → List Block
take_block size b bs =
    if leb (add64 (add64 size header_size) 16) b.size
    then record b { size = size; is_free = false }
      ∷ (record {
        addr = add64 (add64 b.addr header_size) size;
        size = sub64 (sub64 b.size size) header_size;
        is_free = true;
      }
          ∷ bs)
    else record b { is_free = false } ∷ bs

unfoldable pub carve : ℕ → ℕ → List Block → List Block
unfolding take_block
carve a size [] = []
carve a size (b ∷ bs) =
    let rest = carve a size bs in if b.addr == a then take_block size b bs else b ∷ rest

-- Two free neighbours become one block.
unfoldable pub merge : Block → Block → Block
merge b c = record b { size = add64 b.size (add64 header_size c.size) }

-- A new free block at the end of the list, merged with the last one if that is free.
unfoldable pub append_space : Block → List Block → Block → List Block
unfolding merge
append_space b [] new = if b.is_free then merge b new ∷ [] else b ∷ (new ∷ [])
append_space b (c ∷ bs) new = b ∷ append_space c bs new

-- The address of the block with the new space.
unfoldable pub appended : Block → List Block → Block → ℕ
appended b [] new = if b.is_free then b.addr else new.addr
appended b (c ∷ bs) new = appended c bs new

-- `header->is_free = 1`; `none` where no header of the list lies at the address.
unfoldable pub release : ℕ → List Block → Option (List Block)
release a [] = none
release a (b ∷ bs) =
    let rest = release a bs in
    if b.addr == a then some (record b { is_free = true } ∷ bs) else Option.map (λ r. b ∷ r) rest

-- The pass that merges each run of free blocks; a merged block is looked at again.
unfoldable pub coalesce_from : Block → List Block → List Block
unfolding merge
coalesce_from b [] = b ∷ []
coalesce_from b (c ∷ bs) = elim (b.is_free && c.is_free) [
  | true ↦ coalesce_from (merge b c) bs
  | false ↦ b ∷ coalesce_from c bs
]

unfoldable pub coalesce : List Block → List Block
unfolding coalesce_from
coalesce [] = []
coalesce (b ∷ bs) = coalesce_from b bs
