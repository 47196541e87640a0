-- ===== src/User/Heap/Grow.antt =====
-- The growth of the heap of a process.
use sirius_education.Common.{
  ℕ, ◌+◌, ◌%◌, ◌^◌, ◌≤◌, ◌<◌, ◌≡◌, refl, sym, ap, ◌∙◌, true, ◌⊎◌, inl, inr, Option, none, some,
  List, ◌∷◌, ◌==◌, if◌then◌else◌, arith,
}
use sirius_education.Common.Word.{add64, sub64}
use sirius_education.Mm.Blocks.{Block, header_size, fits, carve, append_space, appended}
use sirius_education.Mm.Blocks.Chain.{Chain, carve-Chain, append_space-Chain}
use sirius_education.Mm.Blocks.Best.{In}
use sirius_education.Mm.Blocks.Used.{used_at, used_at-append_space, carve-Carved}
use sirius_education.Mm.Blocks.Space.{In-aligned, append_space-fits, Chain-stop}
use sirius_education.User.Heap.{Break, UHeap, initial_expansion, expansion_size, sbrk_user, expand}

module _ (kernel : Break) where
  open kernel use {State, brk, limit, brk-limit, brk-asked, brk-answer, brk-moves}

  -- From `base`, where the heap has started or is to start, to the limit, the blocks tile the space.
  pub record IsValid (base : ℕ) (h : UHeap) (st : State) : Type 0 where
    pub aligned : base % 16 ≡ 0
    pub tiled : Chain base (limit st) h.blocks
    pub bounded : limit st < 2 ^ 64

  -- `sbrk_user` moves the limit by what is asked and gives the space below it, or moves nothing.
  pub sbrk_user_lem :
      (increment : ℕ) (st : State)
      → 0 < increment
      → limit st + increment < 2 ^ 64
      → ((sbrk_user kernel increment st).0 ≡ none)
          × (limit (sbrk_user kernel increment st).1 ≡ limit st)
        ⊎ ((sbrk_user kernel increment st).0 ≡ some (limit st))
          × (limit (sbrk_user kernel increment st).1 ≡ limit st + increment)
  unfolding sbrk_user
  sbrk_user_lem increment st pos room = ground (
    arith,
    brk-limit st,
    brk-asked st,
    brk-answer (add64 (brk 0 st).0 increment) (brk 0 st).1,
    brk-moves (add64 (brk 0 st).0 increment) (brk 0 st).1,
    pos,
    room,
  )

  -- What `umalloc` may answer to a request for `size` bytes: null, with the blocks in use as they were;
  -- or a pointer behind the header of a block that was not in use and now is, that has `size` bytes at
  -- least, while all other blocks in use are as before.
  abbrev pub Served : ℕ → ℕ → UHeap → ℕ × UHeap × State → Type 0
  Served size base h (ptr, h', st') =
      IsValid base h' st'
      × (((ptr ≡ 0) × ((x : ℕ) → used_at h'.blocks x ≡ used_at h.blocks x))
          ⊎ ((a : ℕ) × (ptr ≡ a + header_size)
              × (ptr % 16 ≡ 0)
              × (used_at h.blocks a ≡ none)
              × (actual : ℕ) × (size ≤ actual)
              × ((x : ℕ)
                  → used_at h'.blocks x ≡ (if a == x then some actual else used_at h.blocks x))))

  pub carved-Served :
      (size base : ℕ) (h : UHeap) (st : State) (c : Block) (a : ℕ)
      → IsValid base h st
      → size % 16 ≡ 0
      → size < 2 ^ 63
      → In c h.blocks
      → c.addr ≡ a
      → fits size c ≡ true
      → Served size base h (add64 a header_size, record h { blocks = carve a size h.blocks }, st)
  carved-Served size base h st c a v al small m at f =
      let (fresh, (actual, big, bits)) =
        carve-Carved base (limit st) a size c h.blocks v.tiled m at f small in
      (
        record {
          aligned = v.aligned;
          tiled = carve-Chain base (limit st) a size h.blocks v.bounded al small v.tiled;
          bounded = v.bounded;
        },
        inr (
          a,
          omega (arith, inside, v.bounded, at),
          omega (arith, inside, v.bounded, at),
          fresh,
          actual,
          big,
          bits,
        ),
      )
    where
      inside : (c.addr % 16 ≡ 0) × (base ≤ c.addr) × (c.addr + header_size + c.size ≤ limit st)
      inside = In-aligned base (limit st) c h.blocks v.tiled v.aligned m

  -- A served request stays one for a heap with the same blocks in use.
  pub Served-moved :
      (size base : ℕ) (h g : UHeap) (r : ℕ × UHeap × State)
      → ((x : ℕ) → used_at g.blocks x ≡ used_at h.blocks x)
      → Served size base g r
      → Served size base h r
  Served-moved size base h g (ptr, h', st) same (v, inl (z, kept)) =
      (v, inl (z, λ x. kept x ∙ same x))
  Served-moved size base h g (ptr, h', st) same (v, inr (a, at, al, fresh, actual, big, bits)) =
      (v, inr (a, at, al, sym (same a) ∙ fresh, actual, big, λ x. ground (arith, bits x, same x)))

  pub expansion_lem :
      (size : ℕ)
      → size < 2 ^ 63
      → size % 16 ≡ 0
      → ((size + header_size ≤ expansion_size size)
          × (expansion_size size % 16 ≡ 0)
          × (expansion_size size < 2 ^ 63 + 2 ^ 14))
        × ((size + header_size ≤ initial_expansion size)
            × (initial_expansion size % 16 ≡ 0)
            × (initial_expansion size < 2 ^ 63 + 2 ^ 14))
  unfolding expansion_size initial_expansion
  expansion_lem size h al = ground arith

  pub same_limit :
      (base : ℕ) (h : UHeap) (st st' : State)
      → limit st' ≡ limit st
      → IsValid base h st
      → IsValid base h st'
  same_limit base h st st' e v = record {
    aligned = v.aligned;
    tiled = Chain-stop base (limit st) (limit st') h.blocks (sym e) v.tiled;
    bounded = omega (arith, e, v.bounded);
  }

  -- The end of a growth: nothing has changed, or the list has a block at its end that fits.
  abbrev pub Expanded : ℕ → ℕ → UHeap → Option ℕ × UHeap × State → Type 0
  Expanded size base h (o, h', st') =
      ((o ≡ none) × (h' ≡ h) × IsValid base h st')
      ⊎ ((c : Block) × (o ≡ some c.addr)
          × IsValid base h' st'
          × ((x : ℕ) → used_at h'.blocks x ≡ used_at h.blocks x)
          × In c h'.blocks
          × (fits size c ≡ true))

  pub expand-Expanded :
      (size base : ℕ) (h : UHeap) (st : State) (b : Block) (bs : List Block)
      → IsValid base h st
      → h.blocks ≡ b ∷ bs
      → size % 16 ≡ 0
      → size < 2 ^ 63
      → limit st + expansion_size size < 2 ^ 64
      → Expanded size base h (expand kernel size b bs h st)
  unfolding expand
  expand-Expanded size base h st b bs v e al small room =
      elim (sbrk_user_lem (expansion_size size) st (omega (arith, bounds)) room) [
        | inl (failed, kept) ↦
            rw (failed, expand) (inl (refl, refl, same_limit base h st st' kept v))
        | inr (space, moved) ↦ rw (space, expand) (inr (grown moved))
      ]
    where
      st' : State
      st' = (sbrk_user kernel (expansion_size size) st).1

      new : Block
      new = record {
        addr = limit st;
        size = sub64 (expansion_size size) header_size;
        is_free = true;
      }

      h' : UHeap
      h' = record {
        blocks = append_space b bs new;
        current_end = add64 (limit st) (expansion_size size);
      }

      bounds :
          (size + header_size ≤ expansion_size size)
          × (expansion_size size % 16 ≡ 0)
          × (expansion_size size < 2 ^ 63 + 2 ^ 14)
      bounds = (expansion_lem size small al).0

      tiles : Chain base (limit st) (b ∷ bs)
      tiles = rw e at v.tiled

      grown :
          limit st' ≡ limit st + expansion_size size
          → (c : Block) × (some (appended b bs new) ≡ some c.addr)
            × IsValid base h' st'
            × ((x : ℕ) → used_at h'.blocks x ≡ used_at h.blocks x)
            × In c h'.blocks
            × (fits size c ≡ true)
      grown moved =
          let (c, m, f, at) =
            append_space-fits base (limit st) size b new bs tiles (omega (arith, bounds, room))
              (ground (arith, bounds)) in
          (
            c,
            ap some (sym at),
            record {
              aligned = v.aligned;
              tiled =
                  Chain-stop base (limit st + header_size + new.size) (limit st') h'.blocks
                    (omega (arith, bounds, room, moved))
                    (append_space-Chain base (limit st) b new bs (omega (arith, bounds, room)) refl
                      (omega (arith, bounds)) tiles);
              bounded = omega (arith, moved, room);
            },
            λ x.
                used_at-append_space x b new bs refl ∙ ap (λ (l : List Block). used_at l x) (sym e),
            m,
            f,
          )
