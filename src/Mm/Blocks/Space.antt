-- ===== src/Mm/Blocks/Space.antt =====
-- The room in a block list: where its blocks lie, and what a request and a growth need of it.
use sirius_education.Common.{
  ℕ, ◌+◌, ◌-◌, ◌%◌, ◌^◌, ◌≤◌, ◌<◌, ◌≡◌, refl, true, false, ◌⊎◌, inl, inr, List, [], ◌∷◌, arith,
  Bool-cases,
}
use sirius_education.Mm.Blocks.{Block, header_size, fits, align16, append_space, appended, merge}
use sirius_education.Mm.Blocks.Chain.{Chain, Chain-le}
use sirius_education.Mm.Blocks.Best.{In, AllBlocks}

pub Chain-sizes :
    (s e : ℕ) (bs : List Block)
    → Chain s e bs
    → e < 2 ^ 64
    → AllBlocks (λ b. b.size < 2 ^ 64 - 1) bs
Chain-sizes s e [] h lt = tt
Chain-sizes s e (b ∷ bs) h lt = (
  omega (arith, Chain-le (s + header_size + b.size) e bs h.2),
  Chain-sizes (s + header_size + b.size) e bs h.2 lt,
)

-- Every block begins at a multiple of 16 and ends inside the heap.
pub In-aligned :
    (s e : ℕ) (c : Block) (bs : List Block)
    → Chain s e bs
    → s % 16 ≡ 0
    → In c bs
    → (c.addr % 16 ≡ 0) × (s ≤ c.addr) × (c.addr + header_size + c.size ≤ e)
In-aligned s e c [] h al m = absurd m
In-aligned s e c (b ∷ bs) h al (inl p) =
    ground (arith, h, p, Chain-le (s + header_size + b.size) e bs h.2)
In-aligned s e c (b ∷ bs) h al (inr m) =
    omega (arith, In-aligned (s + header_size + b.size) e c bs h.2 (omega arith) m)

-- The request as the code rounds it up.
pub align16_lem :
    (size : ℕ)
    → size < 2 ^ 63 - 16
    → (size ≤ align16 size) × (align16 size % 16 ≡ 0) × (align16 size < 2 ^ 63)
unfolding align16
align16_lem size h = omega arith

-- Growing the list at its end leaves a free block there that has the new bytes.
pub append_space-fits :
    (s e size : ℕ) (b new : Block) (bs : List Block)
    → Chain s e (b ∷ bs)
    → e + header_size + new.size < 2 ^ 64
    → fits size new ≡ true
    → (c : Block) × In c (append_space b bs new)
      × (fits size c ≡ true)
      × (c.addr ≡ appended b bs new)
unfolding append_space appended merge
append_space-fits s e size b new [] h lt f = elim (Bool-cases b.is_free) [
  | inl yes_free ↦
      (merge b new, rw yes_free (inl refl), ground (arith, h, yes_free), rw yes_free refl)
  | inr kept ↦ (new, rw kept (inr (inl refl)), f, rw kept refl)
]
append_space-fits s e size b new (c ∷ bs) h lt f =
    let (d, m, g, at) = append_space-fits (s + header_size + b.size) e size c new bs h.2 lt f in
    (d, inr m, g, at)

pub Chain-stop : (s e f : ℕ) (bs : List Block) → e ≡ f → Chain s e bs → Chain s f bs
Chain-stop s e f bs p h = rw (← p) h

pub list_cases : (bs : List Block) → (bs ≡ []) ⊎ ((b : Block) × (t : List Block) × (bs ≡ b ∷ t))
list_cases [] = inl refl
list_cases (b ∷ t) = inr (b, t, refl)

-- A fit is found as soon as there is one.
pub found_fit :
    (size : ℕ) (c : Block) (bs : List Block)
    → In c bs
    → fits size c ≡ true
    → AllBlocks (λ b. fits size b ≡ false) bs
    → ⊥
found_fit size c [] m f a = m
found_fit size c (b ∷ bs) (inl p) f a = ground (arith, a.0)
found_fit size c (b ∷ bs) (inr m) f a = found_fit size c bs m f a.1
