-- ===== src/Mm/Blocks/Used.antt =====
-- The blocks in use, by address.
use sirius_education.Common.{
  ℕ, ◌+◌, ◌^◌, ◌≤◌, ◌<◌, ◌≡◌, refl, true, false, not, ◌&&◌, inl, inr, Option, none, some, List, [],
  ◌∷◌, leb, ◌==◌, if◌then◌else◌, arith, Bool-cases, Option-cases,
}
use sirius_education.Mm.Blocks.{
  Block, header_size, fits, take_block, carve, merge, append_space, release, coalesce_from,
  coalesce,
}
use sirius_education.Mm.Blocks.Chain.{Chain, Chain-le}
use sirius_education.Mm.Blocks.Best.{In}

-- The size of the block in use whose header lies at `x`.
unfoldable pub used_at : List Block → ℕ → Option ℕ
used_at [] x = none
used_at (b ∷ bs) x =
    let rest = used_at bs x in if not b.is_free && (b.addr == x) then some b.size else rest

used_at_below : (s e x : ℕ) (bs : List Block) → Chain s e bs → x < s → used_at bs x ≡ none
unfolding used_at
used_at_below s e x [] h lt = refl
used_at_below s e x (b ∷ bs) h lt =
    ground (arith, used_at_below (s + header_size + b.size) e x bs h.2 (omega arith))

used_at-coalesce_from :
    (x : ℕ) (b : Block) (bs : List Block) → used_at (coalesce_from b bs) x ≡ used_at (b ∷ bs) x
unfolding used_at coalesce_from merge
used_at-coalesce_from x b [] = refl
used_at-coalesce_from x b (c ∷ bs) =
    ground (arith, used_at-coalesce_from x (merge b c) bs, used_at-coalesce_from x c bs)

pub used_at-coalesce : (x : ℕ) (bs : List Block) → used_at (coalesce bs) x ≡ used_at bs x
unfolding coalesce
used_at-coalesce x [] = refl
used_at-coalesce x (b ∷ bs) = used_at-coalesce_from x b bs

pub used_at-append_space :
    (x : ℕ) (b new : Block) (bs : List Block)
    → new.is_free ≡ true
    → used_at (append_space b bs new) x ≡ used_at (b ∷ bs) x
unfolding used_at append_space merge
used_at-append_space x b new [] f = ground arith
used_at-append_space x b new (c ∷ bs) f = ground (arith, used_at-append_space x c new bs f)

-- A release empties its address.
pub used_at-release :
    (s e a x : ℕ) (bs r : List Block)
    → Chain s e bs
    → release a bs ≡ some r
    → used_at r x ≡ (if a == x then none else used_at bs x)
unfolding used_at release
used_at-release s e a x [] r h p = cc
used_at-release s e a x (b ∷ bs) r h p = elim (Bool-cases (b.addr == a)) [
  | inl here ↦ ground (arith, used_at_below (s + header_size + b.size) e x bs h.2)
  | inr past ↦ elim (Option-cases (release a bs)) [
    | inl none_left ↦ ground arith
    | inr (t, q) ↦ ground (arith, used_at-release (s + header_size + b.size) e a x bs t h.2 q)
  ]
]

In-above : (s e : ℕ) (c : Block) (bs : List Block) → Chain s e bs → In c bs → s ≤ c.addr
In-above s e c [] h m = absurd m
In-above s e c (b ∷ bs) h (inl p) = ground (arith, h)
In-above s e c (b ∷ bs) h (inr m) = omega (arith, In-above (s + header_size + b.size) e c bs h.2 m)

-- Carving a block that fits puts a block of at least `size` bytes in use at its address, where none
-- was in use before.
abbrev pub Carved : ℕ → ℕ → List Block → List Block → Type 0
Carved a size bs r =
    (used_at bs a ≡ none)
    × ((actual : ℕ) × (size ≤ actual)
        × ((x : ℕ) → used_at r x ≡ (if a == x then some actual else used_at bs x)))

carve_head :
    (s e a size : ℕ) (b : Block) (bs : List Block)
    → Chain s e (b ∷ bs)
    → (b.addr == a) ≡ true
    → fits size b ≡ true
    → size < 2 ^ 63
    → Carved a size (b ∷ bs) (take_block size b bs)
unfolding used_at take_block
carve_head s e a size b bs h here f small = (
  ground (arith, used_at_below (s + header_size + b.size) e a bs h.2),
  (if leb (size + header_size + 16) b.size then size else b.size, ground arith, λ x. ground arith),
)

carve_tail :
    (a size : ℕ) (b : Block) (bs r : List Block)
    → (b.addr == a) ≡ false
    → Carved a size bs r
    → Carved a size (b ∷ bs) (b ∷ r)
unfolding used_at
carve_tail a size b bs r past ih =
    (ground (arith, ih.0), (ih.1.0, ih.1.1, λ x. ground (arith, ih.1.2 x)))

pub carve-Carved :
    (s e a size : ℕ) (c : Block) (bs : List Block)
    → Chain s e bs
    → In c bs
    → c.addr ≡ a
    → fits size c ≡ true
    → size < 2 ^ 63
    → Carved a size bs (carve a size bs)
unfolding carve
carve-Carved s e a size c [] h m at f small = absurd m
carve-Carved s e a size c (b ∷ bs) h (inl p) at f small =
    rw here (carve_head s e a size b bs h here (ground arith) small)
  where
    here : (b.addr == a) ≡ true
    here = ground arith
carve-Carved s e a size c (b ∷ bs) h (inr m) at f small = rw past (
    carve_tail a size b bs (carve a size bs) past
      (carve-Carved (s + header_size + b.size) e a size c bs h.2 m at f small))
  where
    past : (b.addr == a) ≡ false
    past = ground (arith, h, In-above (s + header_size + b.size) e c bs h.2 m)

-- A block in use lies inside the heap, header and all.
pub used_at_range :
    (s e a n : ℕ) (bs : List Block)
    → Chain s e bs
    → used_at bs a ≡ some n
    → (s ≤ a) × (a + header_size + n ≤ e)
unfolding used_at
used_at_range s e a n [] h u = cc
used_at_range s e a n (b ∷ bs) h u = elim (Bool-cases (not b.is_free && (b.addr == a))) [
  | inl here ↦ ground (arith, h, Chain-le (s + header_size + b.size) e bs h.2)
  | inr past ↦ omega (arith, used_at_range (s + header_size + b.size) e a n bs h.2 (rw past at u))
]

-- Blocks in use do not overlap.
pub used_at-disjoint :
    (s e a b m n : ℕ) (bs : List Block)
    → Chain s e bs
    → used_at bs a ≡ some m
    → used_at bs b ≡ some n
    → a < b
    → a + header_size + m ≤ b
unfolding used_at
used_at-disjoint s e a b m n [] h ua ub lt = cc
used_at-disjoint s e a b m n (c ∷ bs) h ua ub lt =
    elim (Bool-cases (not c.is_free && (c.addr == a))) [
      | inl here ↦
          ground (arith, h, used_at_range (s + header_size + c.size) e b n bs h.2 (ground arith))
      | inr past ↦ elim (Bool-cases (not c.is_free && (c.addr == b))) [
        | inl there ↦
            ground (arith, h, used_at_range (s + header_size + c.size) e a m bs h.2 (ground arith))
        | inr on ↦
            used_at-disjoint (s + header_size + c.size) e a b m n bs h.2 (rw past at ua)
              (rw on at ub) lt
      ]
    ]

-- A block in use can be released.
pub release-some :
    (a n : ℕ) (bs : List Block) → used_at bs a ≡ some n → (r : List Block) × (release a bs ≡ some r)
unfolding used_at release
release-some a n [] u = cc
release-some a n (b ∷ bs) u = elim (Bool-cases (b.addr == a)) [
  | inl here ↦ (record b { is_free = true } ∷ bs, rw here)
  | inr past ↦ let (r, p) = release-some a n bs (ground arith) in (b ∷ r, rw (past, p))
]
