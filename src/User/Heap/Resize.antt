-- ===== src/User/Heap/Resize.antt =====
-- `ucalloc` and `urealloc`: what they write.
use sirius_education.Common.{
  ℕ, zero, suc, ◌+◌, ◌-◌, ◌*◌, ◌^◌, ◌≤◌, ◌<◌, ◌≡◌, ◌≢◌, refl, sym, ap, ◌∙◌, false, List, [], ◌∷◌,
  ==-refl, ne→==, ltb→lt, ltb→ge, Bool-cases, ==_iff, ◌&&◌, none, some, inl, inr, ◌⊎◌, ◌==◌, leb,
  ltb, if◌then◌else◌, arith,
}
use sirius_education.Common.Word.{mul64, sub64}
use sirius_education.Mm.Blocks.{Block, header_size, align16}
use sirius_education.Mm.Blocks.Chain.{Chain}
use sirius_education.Mm.Blocks.Used.{used_at, used_at_range, used_at-disjoint}
use sirius_education.Mm.Frames.{done}
use sirius_education.User.Heap.Grow.{IsValid, Served}
use sirius_education.User.Heap.Alloc.{HasRoom, umalloc-Served}
use sirius_education.User.Heap.Free.{ufree_lem}
use sirius_education.User.Heap.{
  size_at, urealloc, move, Break, UHeap, Memory, Result, write, u_memset, u_memcpy, umalloc,
  ucalloc,
}

u_memset_lem :
    (m : Memory) (dest val len x : ℕ)
    → u_memset m dest val len x ≡ (if leb dest x && ltb x (dest + len) then val else m x)
unfolding u_memset
u_memset_lem m dest val zero x = ground arith
u_memset_lem m dest val (suc len) x =
    ground (arith, u_memset_lem (write m dest val) (dest + 1) val len x)

u_memcpy_below : (m : Memory) (dest src len x : ℕ) → x < dest → u_memcpy m dest src len x ≡ m x
unfolding u_memcpy
u_memcpy_below m dest src zero x lt = refl
u_memcpy_below m dest src (suc len) x lt = ground (
  arith,
  lt,
  u_memcpy_below (write m dest (m src)) (dest + 1) (src + 1) len x (omega (arith, lt)),
)

-- A copy onto an area that does not overlap its source.
u_memcpy_lem :
    (m : Memory) (dest src len i : ℕ)
    → (dest + len ≤ src) ⊎ (src + len ≤ dest)
    → i < len
    → u_memcpy m dest src len (dest + i) ≡ m (src + i)
unfolding u_memcpy
u_memcpy_lem m dest src zero i apart lt = absurd (omega (arith, lt))
u_memcpy_lem m dest src (suc len) zero apart lt =
    u_memcpy_below written (dest + 1) (src + 1) len (dest + 0) (omega arith)
    ∙ rw (right_zero dest, right_zero src, ==-refl dest) refl
  where
    written : Memory
    written = write m dest (m src)

    right_zero : (x : ℕ) → x + 0 ≡ x
    right_zero x = omega arith
u_memcpy_lem m dest src (suc len) (suc i) apart lt =
    ap (u_memcpy written (dest + 1) (src + 1) len) (shift dest)
    ∙ u_memcpy_lem written (dest + 1) (src + 1) len i apart' (omega (arith, lt))
    ∙ untouched
    ∙ ap m (sym (shift src))
  where
    written : Memory
    written = write m dest (m src)

    shift : (x : ℕ) → x + suc i ≡ x + 1 + i
    shift x = omega arith

    apart' : (dest + 1 + len ≤ src + 1) ⊎ (src + 1 + len ≤ dest + 1)
    apart' = elim apart [ inl a ↦ inl (omega (arith, a)) | inr a ↦ inr (omega (arith, a)) ]

    untouched : written (src + 1 + i) ≡ m (src + 1 + i)
    untouched = rw (ne→== (src + 1 + i) dest (λ e. omega (arith, e, apart, lt))) refl

-- The header of a block in use tells its size.
size_at-used :
    (s e a n : ℕ) (bs : List Block) → Chain s e bs → used_at bs a ≡ some n → size_at a bs ≡ some n
unfolding size_at used_at
size_at-used s e a n [] h u = cc
size_at-used s e a n (b ∷ bs) h u = elim (Bool-cases (b.addr == a)) [
  | inl here ↦ elim (Bool-cases b.is_free) [
    | inl free ↦ absurd (
        omega (
          arith,
          (==_iff b.addr a).0 here,
          h.0,
          used_at_range (s + header_size + b.size) e a n bs h.2 (ground (arith, free, u)),
        ))
    | inr used ↦ ground (arith, used, here, u)
  ]
  | inr past ↦ ground (
    arith,
    past,
    u,
    size_at-used (s + header_size + b.size) e a n bs h.2 (ground (arith, past, u)),
  )
]

module _ (kernel : Break) where
  open kernel use {State, limit}

  -- What `urealloc` may leave when it grows the block with header `a` and `n` bytes: null and the same
  -- blocks in use and bytes; or a larger block that holds the old bytes, in place of the old block.
  abbrev pub Grown : ℕ → ℕ → ℕ → ℕ → Memory → UHeap → Result kernel → Type 0
  Grown base a n size m h r =
      IsValid kernel base r.heap r.state
      × (((r.pointer ≡ 0)
            × (r.memory ≡ m)
            × ((x : ℕ) → used_at r.heap.blocks x ≡ used_at h.blocks x))
          ⊎ ((b : ℕ) × (r.pointer ≡ b + header_size)
              × (used_at h.blocks b ≡ none)
              × (actual : ℕ) × (size ≤ actual)
              × ((x : ℕ)
                  → used_at r.heap.blocks x
                    ≡ (if a == x then none else if b == x then some actual else used_at h.blocks x))
              × ((i : ℕ) → i < n → r.memory (b + header_size + i) ≡ m (a + header_size + i))))

  move_lem :
      (base a n size : ℕ) (m : Memory) (h : UHeap) (r : ℕ × UHeap × State)
      → used_at h.blocks a ≡ some n
      → n < size
      → Served kernel size base h r
      → (q : Result kernel) × (move kernel (a + header_size) n m r ≡ done q)
        × Grown base a n size m h q
  unfolding move
  move_lem base a n size m h (ptr, h', st') u less (v, inl (z, kept)) = (
    record { pointer = 0; memory = m; heap = h'; state = st' },
    rw z refl,
    (v, inl (refl, refl, kept)),
  )
  move_lem base a n size m h (ptr, h', st') u less (v, inr (b, at, al, fresh, actual, big, bits)) =
      let (g, freed, w, merged, after) = ufree_lem kernel base h' st' a n v old in
      (
        record {
          pointer = ptr;
          memory = u_memcpy m ptr (a + header_size) n;
          heap = g;
          state = st';
        },
        rw (ne→== ptr 0 (λ z. omega (arith, z, at)), freed) refl,
        (
          w,
          inr (
            b,
            at,
            fresh,
            actual,
            big,
            (λ x. ground (arith, after x, bits x)),
            (λ i lt.
                ap (u_memcpy m ptr (a + header_size) n) (omega (arith, at))
                ∙ u_memcpy_lem m ptr (a + header_size) n i apart lt),
          ),
        ),
      )
    where
      ne : b ≢ a
      ne e = absurd (ground (arith, fresh, u, ap (used_at h.blocks) e))

      old : used_at h'.blocks a ≡ some n
      old = bits a ∙ rw (ne→== b a ne) u

      new : used_at h'.blocks b ≡ some actual
      new = bits b ∙ rw (==-refl b) refl

      apart : (ptr + n ≤ a + header_size) ⊎ (a + header_size + n ≤ ptr)
      apart = elim (Bool-cases (ltb a b)) [
        | inl lt ↦ inr (
            omega (
              arith,
              at,
              used_at-disjoint base (limit st') a b n actual h'.blocks v.tiled old new
                  (ltb→lt a b lt),
            ))
        | inr ge ↦ inl (
            omega (
              arith,
              at,
              big,
              less,
              used_at-disjoint base (limit st') b a actual n h'.blocks v.tiled new old
                  (omega (arith, ltb→ge a b ge, ne)),
            ))
      ]

  -- `urealloc` of a block in use, to a size larger than its own: on a sound heap it returns null and
  -- changes neither the bytes nor the blocks in use, or it returns a new block of that size at least,
  -- which takes the place of the old one and begins with the old one's bytes, whatever the kernel's
  -- `brk` answers. The size is below 2 ^ 63 - 16 and the address space has room for two growths.
  pub urealloc-Grown :
      (base a n size : ℕ) (m : Memory) (h : UHeap) (st : State)
      → IsValid kernel base h st
      → used_at h.blocks a ≡ some n
      → n < size
      → size < 2 ^ 63 - 16
      → HasRoom kernel (align16 size) st
      → (r : Result kernel) × (urealloc kernel (a + header_size) size m h st ≡ done r)
        × Grown base a n size m h r
  unfolding urealloc
  urealloc-Grown base a n size m h st v u less small room =
      let (q, e, g) =
        move_lem base a n size m h (umalloc kernel size h st) u less
          (umalloc-Served kernel size base h st v (omega (arith, less)) small room) in
      (q, rw (some_pointer, some_size, found, bigger) e, g)
    where
      some_pointer : (a + header_size == 0) ≡ false
      some_pointer = ne→== (a + header_size) 0 (λ z. omega (arith, z))

      some_size : (size == 0) ≡ false
      some_size = ne→== size 0 (λ z. omega (arith, z, less))

      back : sub64 (a + header_size) header_size ≡ a
      back = omega (arith, used_at_range base (limit st) a n h.blocks v.tiled u, v.bounded)

      found : size_at (sub64 (a + header_size) header_size) h.blocks ≡ some n
      found =
          ap (λ (x : ℕ). size_at x h.blocks) back
          ∙ size_at-used base (limit st) a n h.blocks v.tiled u

      bigger : leb size n ≡ false
      bigger = ground (arith, less)

  -- `ucalloc` of less than 2 ^ 63 - 16 bytes on a sound heap serves the product of number and size as
  -- `umalloc` does, and where it returns a block all these bytes of it are 0.
  pub ucalloc_lem :
      (base num size : ℕ) (m : Memory) (h : UHeap) (st : State)
      → IsValid kernel base h st
      → 0 < num * size
      → num * size < 2 ^ 63 - 16
      → HasRoom kernel (align16 (num * size)) st
      → (let r = ucalloc kernel num size m h st in
          Served kernel (num * size) base h (r.pointer, r.heap, r.state)
          × ((i : ℕ) → r.pointer ≢ 0 → i < num * size → r.memory (r.pointer + i) ≡ 0))
  unfolding ucalloc
  ucalloc_lem base num size m h st v pos small room = rw total (
    umalloc-Served kernel (num * size) base h st v pos small room,
    λ i ne lt. zeros (umalloc kernel (num * size) h st).0 i ne lt,
  )
    where
      total : mul64 num size ≡ num * size
      total = omega (arith, small)

      zeros :
          (ptr i : ℕ)
          → ptr ≢ 0
          → i < num * size
          → (if ptr == 0 then m else u_memset m ptr 0 (num * size)) (ptr + i) ≡ 0
      zeros ptr i ne lt =
          rw (ne→== ptr 0 ne) (ground (arith, lt, u_memset_lem m ptr 0 (num * size) (ptr + i)))
