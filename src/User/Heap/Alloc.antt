-- ===== src/User/Heap/Alloc.antt =====
-- `umalloc` and its answers.
use sirius_education.Common.{
  ℕ, ◌+◌, ◌-◌, ◌%◌, ◌^◌, ◌≤◌, ◌<◌, ◌≡◌, refl, sym, ap, ◌∙◌, true, false, ◌⊎◌, inl, inr, Option,
  none, List, [], ◌∷◌, ◌==◌, if◌then◌else◌, arith, ne→==,
}
use sirius_education.Common.Word.{add64, sub64}
use sirius_education.Mm.Blocks.{Block, header_size, align16, best_fit}
use sirius_education.Mm.Blocks.Best.{best_fit-IsBest}
use sirius_education.Mm.Blocks.Used.{used_at}
use sirius_education.Mm.Blocks.Space.{Chain-sizes, align16_lem, list_cases}
use sirius_education.User.Heap.{
  Break, UHeap, initial_expansion, expansion_size, sbrk_user, start, expand, take_grown, serve,
  umalloc_rounded, umalloc,
}
use sirius_education.User.Heap.Grow.{
  sbrk_user_lem, Served, carved-Served, Served-moved, expansion_lem, same_limit, Expanded,
  expand-Expanded, IsValid,
}

module _ (kernel : Break) where
  open kernel use {State, brk, limit, brk-limit, brk-asked, brk-answer, brk-moves}

  serve_grows :
      (size : ℕ) (h : UHeap) (st : State) (b : Block) (bs : List Block)
      → best_fit size h.blocks 0xFFFFFFFFFFFFFFFF none ≡ none
      → h.blocks ≡ b ∷ bs
      → serve kernel size h st ≡ take_grown kernel size (expand kernel size b bs h st)
  unfolding serve
  serve_grows size h st b bs missing e = rw (missing, serve) (simp e refl)

  serve-Served :
      (size base : ℕ) (h : UHeap) (st : State) (b : Block) (bs : List Block)
      → IsValid kernel base h st
      → h.blocks ≡ b ∷ bs
      → size % 16 ≡ 0
      → size < 2 ^ 63
      → limit st + expansion_size size < 2 ^ 64
      → Served kernel size base h (serve kernel size h st)
  unfolding serve
  serve-Served size base h st b bs v e al small room =
      elim (best_fit-IsBest size h.blocks
        (Chain-sizes base (limit st) h.blocks v.tiled v.bounded)) [
          | inr (d, n, at, f, least) ↦
              rw (at, serve) (carved-Served kernel size base h st d d.addr v al small n refl f)
          | inl (missing, a) ↦ rw (serve_grows size h st b bs missing e) (
              taken (expand kernel size b bs h st)
                (expand-Expanded kernel size base h st b bs v e al small room))
        ]
    where
      taken :
          (g : Option ℕ × UHeap × State)
          → Expanded kernel size base h g
          → Served kernel size base h (take_grown kernel size g)
      taken (o, h', st') (inl (failed, same, w)) =
          rw (failed, take_grown) (rw same (w, inl (refl, λ x. refl)))
      taken (o, h', st') (inr (c, found, w, same, m, f)) =
          rw (found, take_grown)
            (Served-moved kernel size base h h' (_, _, st') same
              (carved-Served kernel size base h' st' c c.addr w al small m refl f))

  -- The first call of a process: no space, or one free block.
  start-Started :
      (size base : ℕ) (h : UHeap) (st : State)
      → IsValid kernel base h st
      → h.blocks ≡ []
      → size % 16 ≡ 0
      → size < 2 ^ 63
      → limit st + initial_expansion size < 2 ^ 64
      → ((start kernel size st).0 ≡ false) × (limit (start kernel size st).2 ≡ limit st)
        ⊎ ((start kernel size st).0 ≡ true)
          × IsValid kernel base (start kernel size st).1 (start kernel size st).2
          × ((b : Block) × ((start kernel size st).1.blocks ≡ b ∷ []) × (b.is_free ≡ true))
          × (limit (start kernel size st).2 ≡ limit st + initial_expansion size)
  unfolding start
  start-Started size base h st v e al small room =
      elim (sbrk_user_lem kernel (initial_expansion size) (brk 0 st).1 (omega (arith, bounds))
        (omega (arith, room, brk-asked st))) [
          | inl (failed, kept) ↦ rw (far, failed, start) (inl (refl, kept ∙ brk-asked st))
          | inr (space, moved) ↦
              rw (far, space, start)
                (inr (refl, ready moved, (_, refl, refl), omega (arith, moved, brk-asked st)))
        ]
    where
      bounds :
          (size + header_size ≤ initial_expansion size)
          × (initial_expansion size % 16 ≡ 0)
          × (initial_expansion size < 2 ^ 63 + 2 ^ 14)
      bounds = (expansion_lem kernel size small al).1

      far : ((brk 0 st).0 == 2 ^ 64 - 1) ≡ false
      far = ne→== _ _ (λ q. omega (arith, q, brk-limit st, room, bounds))

      at_base : base ≡ limit st
      at_base = rw e at v.tiled

      ready :
          limit (sbrk_user kernel (initial_expansion size) (brk 0 st).1).1
            ≡ limit (brk 0 st).1 + initial_expansion size
          → IsValid kernel base
              (record {
                blocks =
                    record {
                      addr = limit (brk 0 st).1;
                      size = sub64 (initial_expansion size) header_size;
                      is_free = true;
                    }
                    ∷ [];
                current_end = add64 (limit (brk 0 st).1) (initial_expansion size);
              })
              (sbrk_user kernel (initial_expansion size) (brk 0 st).1).1
      ready moved = record {
        aligned = v.aligned;
        tiled = omega (arith, moved, brk-asked st, at_base, bounds, room);
        bounded = omega (arith, moved, brk-asked st, room);
      }

  free_block : (b : Block) (x : ℕ) → b.is_free ≡ true → used_at (b ∷ []) x ≡ none
  unfolding used_at
  free_block b x f = ground (arith, f)

  -- The room for the two growths that a call may need.
  abbrev pub HasRoom : ℕ → State → Type 0
  HasRoom size st = limit st + initial_expansion size + expansion_size size < 2 ^ 64

  rounded_started :
      (size : ℕ) (h : UHeap) (st : State) (b : Block) (bs : List Block)
      → h.blocks ≡ b ∷ bs
      → umalloc_rounded kernel size h st ≡ serve kernel size h st
  unfolding umalloc_rounded
  rounded_started size h st b bs e = simp (e, umalloc_rounded) refl

  rounded_cold :
      (size : ℕ) (h : UHeap) (st : State)
      → h.blocks ≡ []
      → umalloc_rounded kernel size h st ≡ (
          if (start kernel size st).0
          then serve kernel size (start kernel size st).1 (start kernel size st).2
          else (0, h, (start kernel size st).2))
  unfolding umalloc_rounded
  rounded_cold size h st e = simp (e, umalloc_rounded) refl

  rounded-Served :
      (size base : ℕ) (h : UHeap) (st : State)
      → IsValid kernel base h st
      → size % 16 ≡ 0
      → size < 2 ^ 63
      → HasRoom size st
      → Served kernel size base h (umalloc_rounded kernel size h st)
  rounded-Served size base h st v al small room = elim (list_cases h.blocks) [
    | inr (b, bs, e) ↦
        rw (rounded_started size h st b bs e)
          (serve-Served size base h st b bs v e al small (omega (arith, room)))
    | inl e ↦ elim (start-Started size base h st v e al small (omega (arith, room))) [
      | inl (failed, kept) ↦
          rw (rounded_cold size h st e, failed)
            (same_limit kernel base h st (start kernel size st).2 kept v, inl (refl, λ x. refl))
      | inr (ok, w, (b, one, free), moved) ↦
          rw (rounded_cold size h st e, ok)
            (Served-moved kernel size base h (start kernel size st).1 _
              (λ x.
                ap (λ (l : List Block). used_at l x) one
                ∙ free_block b x free
                ∙ sym (ap (λ (l : List Block). used_at l x) e ∙ nothing x))
              (serve-Served size base (start kernel size st).1 (start kernel size st).2 b [] w one
                al small (omega (arith, room, moved))))
    ]
  ]
    where
      nothing : (x : ℕ) → used_at [] x ≡ none
      nothing x = unfold used_at in refl

  -- `umalloc` in a process whose heap is sound, started or not: whatever the kernel's `brk` answers, it
  -- returns null with the same blocks in use, or a pointer, a multiple of 16, to a block of at least
  -- `size` bytes that was not in use, and changes no other block in use; the heap stays sound. The
  -- request is above 0 and below 2 ^ 63 - 16 bytes and the address space has room for two growths.
  pub umalloc-Served :
      (size base : ℕ) (h : UHeap) (st : State)
      → IsValid kernel base h st
      → 0 < size
      → size < 2 ^ 63 - 16
      → HasRoom (align16 size) st
      → Served kernel size base h (umalloc kernel size h st)
  unfolding umalloc
  umalloc-Served size base h st v pos small room = rw nonzero (
      smaller (umalloc_rounded kernel (align16 size) h st)
        (rounded-Served (align16 size) base h st v rounded.1 rounded.2 room))
    where
      rounded : (size ≤ align16 size) × (align16 size % 16 ≡ 0) × (align16 size < 2 ^ 63)
      rounded = align16_lem size small

      nonzero : (size == 0) ≡ false
      nonzero = ground (arith, pos)

      smaller :
          (r : ℕ × UHeap × State)
          → Served kernel (align16 size) base h r
          → Served kernel size base h r
      smaller (ptr, h', st') (w, inl e) = (w, inl e)
      smaller (ptr, h', st') (w, inr (a, at, al, fresh, actual, big, bits)) =
          (w, inr (a, at, al, fresh, actual, omega (arith, rounded.0, big), bits))
