-- ===== src/Mm/Heap/Alloc.antt =====
-- `kmalloc` and its answers.
use sirius_education.Common.{
  ℕ, suc, ◌+◌, ◌-◌, ◌/◌, ◌%◌, ◌^◌, ◌≤◌, ◌<◌, ◌≡◌, ◌≢◌, refl, sym, ap, ◌∙◌, Bool, true, false, ◌⊎◌,
  inl, inr, Option, none, some, List, [], ◌∷◌, ◌==◌, if◌then◌else◌, arith, Bool-cases,
}
use sirius_education.Common.Word.{add64, sub64, page_size}
use sirius_education.Mm.Blocks.{Block, header_size, fits, align16, best_fit, carve, append_space}
use sirius_education.Mm.Blocks.Chain.{Chain, carve-Chain, append_space-Chain}
use sirius_education.Mm.Blocks.Best.{In, AllBlocks, IsBest, best_fit-IsBest}
use sirius_education.Mm.Blocks.Used.{used_at, used_at-append_space, carve-Carved}
use sirius_education.Mm.Blocks.Space.{
  Chain-sizes, In-aligned, align16_lem, append_space-fits, Chain-stop, list_cases, found_fit,
}
use sirius_education.Mm.Frames.{Frames, done}
use sirius_education.Mm.Heap.{
  Heap, heap_base, expansion_size, map_pages, expand, retry_search, kmalloc,
}
use sirius_education.Mm.Heap.Valid.{IsValid}

expansion_lem :
    (size : ℕ)
    → size < 2 ^ 63
    → (size + header_size ≤ expansion_size size)
      × (expansion_size size % page_size ≡ 0)
      × (expansion_size size < 2 ^ 63 + 2 ^ 14)
unfolding expansion_size
expansion_lem size h = ground arith

-- What `kmalloc` may answer to a request for `size` bytes: null and the heap as it was, or a pointer
-- behind the header of a block that was not in use and now is, that has `size` bytes at least, and
-- that lies with its header inside the heap, while all other blocks in use are as before.
module _ {S : Type 0} where
  abbrev pub Served : ℕ → Heap → ℕ × Heap × S → Type 0
  Served size h (ptr, h', st) =
      IsValid h'
      × (((ptr ≡ 0) × (h' ≡ h))
          ⊎ ((a : ℕ) × (ptr ≡ a + header_size)
              × (ptr % 16 ≡ 0)
              × (used_at h.blocks a ≡ none)
              × (actual : ℕ) × (size ≤ actual)
              × ((x : ℕ)
                  → used_at h'.blocks x ≡ (if a == x then some actual else used_at h.blocks x))))

carved-Served :
    {S : Type 0} (size : ℕ) (h : Heap) (st : S) (c : Block) (a : ℕ)
    → IsValid h
    → size % 16 ≡ 0
    → size < 2 ^ 63
    → In c h.blocks
    → a ≡ c.addr
    → fits size c ≡ true
    → Served size h (add64 a header_size, record h { blocks = carve a size h.blocks }, st)
carved-Served size h st c a v al small m at f =
    let (fresh, (actual, big, bits)) =
      carve-Carved heap_base h.current_end a size c h.blocks v.tiled m (sym at) f small in
    (
      record {
        tiled = carve-Chain heap_base h.current_end a size h.blocks v.bounded al small v.tiled;
        bounded = v.bounded;
        started = v.started;
      },
      inr (
        a,
        omega (arith, inside, v.bounded),
        omega (arith, inside, v.bounded),
        fresh,
        actual,
        big,
        bits,
      ),
    )
  where
    inside :
        (c.addr % 16 ≡ 0) × (heap_base ≤ c.addr) × (c.addr + header_size + c.size ≤ h.current_end)
    inside = In-aligned heap_base h.current_end c h.blocks v.tiled (omega arith) m

module _ (frames : Frames) where
  open frames use {State}

  -- What the growth of a valid heap may end in.
  abbrev Expanded : ℕ → Heap → Bool × Heap × State → Type 0
  Expanded size h (ok, h', st) =
      ((ok ≡ false) × (h' ≡ h))
      ⊎ ((ok ≡ true)
          × IsValid h'
          × ((x : ℕ) → used_at h'.blocks x ≡ used_at h.blocks x)
          × ((c : Block) × In c h'.blocks × (fits size c ≡ true)))

  expand-Expanded :
      (size : ℕ) (h : Heap) (st : State)
      → IsValid h
      → size < 2 ^ 63
      → h.current_end + expansion_size size < 2 ^ 64
      → (r : Bool × Heap × State) × (expand frames size h st ≡ done r) × Expanded size h r
  unfolding expand
  expand-Expanded size h st v small room = elim (list_cases h.blocks) [
    | inl none_left ↦ absurd (empty_heap none_left)
    | inr (b, t, e) ↦ elim (Bool-cases (map_pages frames h.current_end 0 rounds st).0) [
      | inl ok ↦ (
        (true, grown_heap b t, st'),
        rw (ok, expand, e) refl,
        inr (
          refl,
          grown-IsValid b t (tiles b t e),
          (λ x. used_at-append_space x b new t refl ∙ ap (λ (l : List Block). used_at l x) (sym e)),
          let (c, m, f, at) =
                append_space-fits heap_base h.current_end size b new t (tiles b t e)
                  (omega (arith, bounds, room)) (ground (arith, bounds)) in
              (c, m, f),
        ),
      )
      | inr failed ↦ ((false, h, st'), rw (failed, expand) refl, inl (refl, refl))
    ]
  ]
    where
      grown : ℕ
      grown = expansion_size size

      rounds : ℕ
      rounds = (grown + (page_size - 1)) / page_size

      st' : State
      st' = (map_pages frames h.current_end 0 rounds st).1

      new : Block
      new = record { addr = h.current_end; size = sub64 grown header_size; is_free = true }

      grown_heap : Block → List Block → Heap
      grown_heap b t = record {
        blocks = append_space b t new;
        current_end = add64 h.current_end grown;
      }

      bounds : (size + header_size ≤ grown) × (grown % page_size ≡ 0) × (grown < 2 ^ 63 + 2 ^ 14)
      bounds = expansion_lem size small

      empty_heap : h.blocks ≡ [] → ⊥
      empty_heap e = absurd (omega (arith, rw e at v.tiled, v.started))

      tiles :
          (b : Block) (t : List Block) → h.blocks ≡ b ∷ t → Chain heap_base h.current_end (b ∷ t)
      tiles b t e = rw e at v.tiled

      grown-IsValid :
          (b : Block) (t : List Block)
          → Chain heap_base h.current_end (b ∷ t)
          → IsValid (grown_heap b t)
      grown-IsValid b t c = record {
        tiled =
            Chain-stop heap_base (h.current_end + header_size + new.size)
              (add64 h.current_end grown) (append_space b t new) (omega (arith, bounds, room))
              (append_space-Chain heap_base h.current_end b new t (omega (arith, bounds, room)) refl
                (omega (arith, bounds)) c);
        bounded = omega arith;
        started = omega (arith, room, v.started);
      }

  search_hit :
      (fuel size : ℕ) (h : Heap) (st : State)
      → IsValid h
      → size % 16 ≡ 0
      → size < 2 ^ 63
      → ((c : Block) × In c h.blocks × (fits size c ≡ true))
      → (r : ℕ × Heap × State) × (retry_search frames (suc fuel) size h st ≡ done r)
        × Served size h r
        × (0 < r.0)
  unfolding retry_search
  search_hit fuel size h st v al small (c, m, f) =
      hit (best_fit size h.blocks 0xFFFFFFFFFFFFFFFF none) refl (
        best_fit-IsBest size h.blocks
          (Chain-sizes heap_base h.current_end h.blocks v.tiled v.bounded))
    where
      hit :
          (o : Option ℕ)
          → best_fit size h.blocks 0xFFFFFFFFFFFFFFFF none ≡ o
          → IsBest size h.blocks o
          → (r : ℕ × Heap × State) × (retry_search frames (suc fuel) size h st ≡ done r)
            × Served size h r
            × (0 < r.0)
      hit o e (inl (n, a)) = absurd (found_fit size c h.blocks m f a)
      hit o e (inr (d, n, at, g, least)) = (
        (add64 d.addr header_size, record h { blocks = carve d.addr size h.blocks }, st),
        rw (e ∙ at, retry_search) refl,
        carved-Served size h st d d.addr v al small n refl g,
        omega (
          arith,
          In-aligned heap_base h.current_end d h.blocks v.tiled (omega arith) n,
          v.bounded,
        ),
      )

  step_failed :
      (fuel size : ℕ) (h g : Heap) (st st' : State)
      → best_fit size h.blocks 0xFFFFFFFFFFFFFFFF none ≡ none
      → expand frames size h st ≡ done (false, g, st')
      → retry_search frames (suc fuel) size h st ≡ done (0, g, st')
  unfolding retry_search
  step_failed fuel size h g st st' e p = rw (e, retry_search) (rw (p, retry_search) refl)

  step_grown :
      (fuel size : ℕ) (h g : Heap) (st st' : State)
      → best_fit size h.blocks 0xFFFFFFFFFFFFFFFF none ≡ none
      → expand frames size h st ≡ done (true, g, st')
      → retry_search frames (suc fuel) size h st ≡ retry_search frames fuel size g st'
  unfolding retry_search
  step_grown fuel size h g st st' e p = rw (e, retry_search) (rw (p, retry_search) refl)

  Served-moved :
      (size : ℕ) (h g : Heap) (r : ℕ × Heap × State)
      → ((x : ℕ) → used_at g.blocks x ≡ used_at h.blocks x)
      → r.0 ≢ 0
      → Served size g r
      → Served size h r
  Served-moved size h g (ptr, h', st) same ne (v, inl (z, e)) = absurd (ne z)
  Served-moved size h g (ptr, h', st) same ne (v, inr (a, at, al, fresh, actual, big, bits)) =
      (v, inr (a, at, al, sym (same a) ∙ fresh, actual, big, λ x. ground (arith, bits x, same x)))

  search-Served :
      (fuel size : ℕ) (h : Heap) (st : State)
      → IsValid h
      → size % 16 ≡ 0
      → size < 2 ^ 63
      → h.current_end + expansion_size size < 2 ^ 64
      → (r : ℕ × Heap × State) × (retry_search frames (suc (suc fuel)) size h st ≡ done r)
        × Served size h r
  search-Served fuel size h st v al small room =
      answer (best_fit size h.blocks 0xFFFFFFFFFFFFFFFF none) refl
        (best_fit-IsBest size h.blocks
          (Chain-sizes heap_base h.current_end h.blocks v.tiled v.bounded))
        (expand-Expanded size h st v small room)
    where
      Answer : Type 0
      Answer =
          (r : ℕ × Heap × State) × (retry_search frames (suc (suc fuel)) size h st ≡ done r)
          × Served size h r

      grown :
          best_fit size h.blocks 0xFFFFFFFFFFFFFFFF none ≡ none
          → (q : Bool × Heap × State) → expand frames size h st ≡ done q
          → Expanded size h q
          → Answer
      grown e (ok, g, st') p (inl (failed, same)) = (
        (0, g, st'),
        step_failed (suc fuel) size h g st st' e (p ∙ ap (λ (o : Bool). done (o, g, st')) failed),
        (rw same v, inl (refl, same)),
      )
      grown e (ok, g, st') p (inr (worked, w, same, room_left)) =
          let (c, m, f) = room_left in
          let (r, q, served, pos) = search_hit fuel size g st' w al small (c, m, f) in
          (
            r,
            step_grown (suc fuel) size h g st st' e (p ∙ ap (λ (o : Bool). done (o, g, st')) worked)
                ∙ q,
            Served-moved size h g r same (λ z. omega (arith, pos, z)) served,
          )

      answer :
          (o : Option ℕ)
          → best_fit size h.blocks 0xFFFFFFFFFFFFFFFF none ≡ o
          → IsBest size h.blocks o
          → ((q : Bool × Heap × State) × (expand frames size h st ≡ done q) × Expanded size h q)
          → Answer
      answer o e (inl (n, a)) (q, p, x) = grown (e ∙ n) q p x
      answer o e (inr (d, n, at, f, least)) x =
          let (r, q, served, pos) = search_hit (suc fuel) size h st v al small (d, n, f) in
          (r, q, served)

  -- `kmalloc` on a valid heap: with two rounds of the search, whatever the frame allocator answers,
  -- it returns null and leaves the heap as it was, or returns a pointer, a multiple of 16, to a block
  -- of at least `size` bytes that was not in use, and changes no other block in use; the heap stays
  -- valid. The request is above 0 and below 2 ^ 63 - 16
  -- bytes and the heap has addresses left for one growth.
  pub kmalloc-Served :
      (fuel size : ℕ) (h : Heap) (st : State)
      → IsValid h
      → 0 < size
      → size < 2 ^ 63 - 16
      → h.current_end + expansion_size (align16 size) < 2 ^ 64
      → (r : ℕ × Heap × State) × (kmalloc frames (suc (suc fuel)) size h st ≡ done r)
        × Served size h r
  unfolding kmalloc
  kmalloc-Served fuel size h st v pos small room =
      let (r, q, served) = search-Served fuel (align16 size) h st v rounded.1 rounded.2 room in
      (r, rw nonzero q, Served-smaller r served)
    where
      rounded : (size ≤ align16 size) × (align16 size % 16 ≡ 0) × (align16 size < 2 ^ 63)
      rounded = align16_lem size small

      nonzero : (size == 0) ≡ false
      nonzero = ground arith

      Served-smaller : (r : ℕ × Heap × State) → Served (align16 size) h r → Served size h r
      Served-smaller (ptr, h', st') (w, inl e) = (w, inl e)
      Served-smaller (ptr, h', st') (w, inr (a, at, al, fresh, actual, big, bits)) =
          (w, inr (a, at, al, fresh, actual, omega (arith, rounded.0), bits))

  -- The choice of `kmalloc`: where some free block is large enough for the rounded request, it hands
  -- out such a block that no other undercuts, and asks for no frame.
  pub kmalloc_best_fit :
      (fuel size : ℕ) (h : Heap) (st : State) (c : Block)
      → IsValid h
      → 0 < size
      → In c h.blocks
      → fits (align16 size) c ≡ true
      → (d : Block) × (h' : Heap) × (kmalloc frames (suc fuel) size h st
          ≡ done (add64 d.addr header_size, h', st))
        × In d h.blocks
        × (fits (align16 size) d ≡ true)
        × AllBlocks (λ b. fits (align16 size) b ≡ true → d.size ≤ b.size) h.blocks
  unfolding kmalloc retry_search
  kmalloc_best_fit fuel size h st c v pos m f =
      choose (best_fit (align16 size) h.blocks 0xFFFFFFFFFFFFFFFF none) refl (
        best_fit-IsBest (align16 size) h.blocks
          (Chain-sizes heap_base h.current_end h.blocks v.tiled v.bounded))
    where
      nonzero : (size == 0) ≡ false
      nonzero = ground arith

      choose :
          (o : Option ℕ)
          → best_fit (align16 size) h.blocks 0xFFFFFFFFFFFFFFFF none ≡ o
          → IsBest (align16 size) h.blocks o
          → (d : Block) × (h' : Heap) × (kmalloc frames (suc fuel) size h st
              ≡ done (add64 d.addr header_size, h', st))
            × In d h.blocks
            × (fits (align16 size) d ≡ true)
            × AllBlocks (λ b. fits (align16 size) b ≡ true → d.size ≤ b.size) h.blocks
      choose o e (inl (n, a)) = absurd (found_fit (align16 size) c h.blocks m f a)
      choose o e (inr (d, n, at, g, least)) = (
        d,
        record h { blocks = carve d.addr (align16 size) h.blocks },
        rw (nonzero, e ∙ at, retry_search) refl,
        n,
        g,
        least,
      )
