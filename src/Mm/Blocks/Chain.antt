-- ===== src/Mm/Blocks/Chain.antt =====
-- How the blocks lie in the address range of the heap.
use sirius_education.Common.{
  ℕ, ◌+◌, ◌%◌, ◌^◌, ◌≤◌, ◌<◌, ◌≡◌, refl, Bool, false, ◌&&◌, inl, inr, some, List, [], ◌∷◌, ◌==◌,
  arith, Bool-cases, Option-cases,
}
use sirius_education.Mm.Blocks.{
  Block, header_size, take_block, carve, merge, append_space, release, coalesce_from, coalesce,
}

-- From `start` to `stop` each block begins where the one before it ends, at a multiple of 16 bytes.
abbrev pub Chain : ℕ → ℕ → List Block → Type 0
Chain start stop [] = start ≡ stop
Chain start stop (b ∷ bs) =
    (b.addr ≡ start) × (b.size % 16 ≡ 0) × Chain (start + header_size + b.size) stop bs

-- No two neighbours are both free.
abbrev pub IsCoalesced : List Block → Type 0
IsCoalesced [] = Unit {0}
IsCoalesced (b ∷ []) = Unit {0}
IsCoalesced (b ∷ (c ∷ bs)) = ((b.is_free && c.is_free) ≡ false) × IsCoalesced (c ∷ bs)

pub Chain-le : (s e : ℕ) (bs : List Block) → Chain s e bs → s ≤ e
Chain-le s e [] h = omega arith
Chain-le s e (b ∷ bs) h = omega (arith, Chain-le (s + header_size + b.size) e bs h.2)

take_block-Chain :
    (s e size : ℕ) (b : Block) (bs : List Block)
    → e < 2 ^ 64
    → size % 16 ≡ 0
    → size < 2 ^ 63
    → Chain s e (b ∷ bs)
    → Chain s e (take_block size b bs)
unfolding take_block
take_block-Chain s e size b bs lt al small h =
    ground (arith, Chain-le (s + header_size + b.size) e bs h.2)

pub carve-Chain :
    (s e a size : ℕ) (bs : List Block)
    → e < 2 ^ 64
    → size % 16 ≡ 0
    → size < 2 ^ 63
    → Chain s e bs
    → Chain s e (carve a size bs)
unfolding carve
carve-Chain s e a size [] lt al small h = h
carve-Chain s e a size (b ∷ bs) lt al small h = elim (Bool-cases (b.addr == a)) [
  | inl here ↦ rw here (take_block-Chain s e size b bs lt al small h)
  | inr past ↦
      rw past (h.0, h.1, carve-Chain (s + header_size + b.size) e a size bs lt al small h.2)
]

Chain-from : (s t e : ℕ) (bs : List Block) → s ≡ t → Chain s e bs → Chain t e bs
Chain-from s t e bs p h = rw (← p) h

merge-Chain :
    (s e : ℕ) (b c : Block) (bs : List Block)
    → e < 2 ^ 64
    → Chain s e (b ∷ (c ∷ bs))
    → Chain s e (merge b c ∷ bs)
unfolding merge
merge-Chain s e b c bs lt h =
    (h.0, omega (arith, h.1, h.2.1, bound), Chain-from _ _ e bs (omega (arith, bound)) h.2.2)
  where
    bound : s + header_size + b.size + header_size + c.size ≤ e
    bound = Chain-le (s + header_size + b.size + header_size + c.size) e bs h.2.2

pub coalesce_from-Chain :
    (s e : ℕ) (b : Block) (bs : List Block)
    → e < 2 ^ 64
    → Chain s e (b ∷ bs)
    → Chain s e (coalesce_from b bs)
unfolding coalesce_from
coalesce_from-Chain s e b [] lt h = h
coalesce_from-Chain s e b (c ∷ bs) lt h = elim (Bool-cases (b.is_free && c.is_free)) [
  | inl both ↦
      rw (both, coalesce_from)
        (coalesce_from-Chain s e (merge b c) bs lt (merge-Chain s e b c bs lt h))
  | inr not_both ↦
      rw (not_both, coalesce_from)
        (h.0, h.1, coalesce_from-Chain (s + header_size + b.size) e c bs lt h.2)
]

pub coalesce-Chain :
    (s e : ℕ) (bs : List Block) → e < 2 ^ 64 → Chain s e bs → Chain s e (coalesce bs)
unfolding coalesce
coalesce-Chain s e [] lt h = h
coalesce-Chain s e (b ∷ bs) lt h = coalesce_from-Chain s e b bs lt h

pub append_space-Chain :
    (s e : ℕ) (b new : Block) (bs : List Block)
    → e + header_size + new.size < 2 ^ 64
    → new.addr ≡ e
    → new.size % 16 ≡ 0
    → Chain s e (b ∷ bs)
    → Chain s (e + header_size + new.size) (append_space b bs new)
unfolding append_space
append_space-Chain s e b new [] lt at al h = elim (Bool-cases b.is_free) [
  | inl yes_free ↦ rw yes_free (
      merge-Chain s (e + header_size + new.size) b new [] lt
        (h.0, h.1, (omega (arith, h.2), al, omega (arith, h.2))))
  | inr kept ↦ rw kept (h.0, h.1, (omega (arith, h.2), al, omega (arith, h.2)))
]
append_space-Chain s e b new (c ∷ bs) lt at al h =
    (h.0, h.1, append_space-Chain (s + header_size + b.size) e c new bs lt at al h.2)

pub release-Chain :
    (s e a : ℕ) (bs r : List Block) → release a bs ≡ some r → Chain s e bs → Chain s e r
unfolding release
release-Chain s e a [] r p h = cc
release-Chain s e a (b ∷ bs) r p h = elim (Bool-cases (b.addr == a)) [
  | inl here ↦ ground (arith, p)
  | inr past ↦ elim (Option-cases (release a bs)) [
    | inl none_left ↦ ground arith
    | inr (t, q) ↦ ground (arith, release-Chain (s + header_size + b.size) e a bs t q h.2)
  ]
]

-- Merging goes on until no two neighbours are free.
abbrev HeadIs : Bool → List Block → Type 0
HeadIs f [] = Unit {0}
HeadIs f (b ∷ bs) = b.is_free ≡ f

coalesce_from-HeadIs : (b : Block) (bs : List Block) → HeadIs b.is_free (coalesce_from b bs)
unfolding coalesce_from merge
coalesce_from-HeadIs b [] = refl
coalesce_from-HeadIs b (c ∷ bs) = elim (Bool-cases (b.is_free && c.is_free)) [
  | inl both ↦ rw (both, coalesce_from) (coalesce_from-HeadIs (merge b c) bs)
  | inr not_both ↦ rw (not_both, coalesce_from) refl
]

cons-IsCoalesced :
    (b : Block) (f : Bool) (l : List Block)
    → HeadIs f l
    → (b.is_free && f) ≡ false
    → IsCoalesced l
    → IsCoalesced (b ∷ l)
cons-IsCoalesced b f [] h p c = tt
cons-IsCoalesced b f (d ∷ l) h p c = (ground arith, c)

coalesce_from-IsCoalesced : (b : Block) (bs : List Block) → IsCoalesced (coalesce_from b bs)
unfolding coalesce_from
coalesce_from-IsCoalesced b [] = tt
coalesce_from-IsCoalesced b (c ∷ bs) = elim (Bool-cases (b.is_free && c.is_free)) [
  | inl both ↦ rw (both, coalesce_from) (coalesce_from-IsCoalesced (merge b c) bs)
  | inr not_both ↦
      rw (not_both, coalesce_from)
        (cons-IsCoalesced b c.is_free (coalesce_from c bs) (coalesce_from-HeadIs c bs) not_both
          (coalesce_from-IsCoalesced c bs))
]

-- Whatever the list, no two neighbours of the result are both free.
pub coalesce-IsCoalesced : (bs : List Block) → IsCoalesced (coalesce bs)
unfolding coalesce
coalesce-IsCoalesced [] = tt
coalesce-IsCoalesced (b ∷ bs) = coalesce_from-IsCoalesced b bs
