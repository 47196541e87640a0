-- ===== src/Mm/Blocks/Best.antt =====
-- The best-fit search.
use sirius_education.Common.{
  ℕ, ◌-◌, ◌^◌, ◌≤◌, ◌<◌, ◌≡◌, refl, true, false, ◌&&◌, ◌⊎◌, inl, inr, Option, none, some, List, [],
  ◌∷◌, ltb, arith, Bool-cases,
}
use sirius_education.Mm.Blocks.{Block, fits, best_fit}

abbrev pub In : Block → List Block → Type 0
In c [] = ⊥
In c (b ∷ bs) = (c ≡ b) ⊎ In c bs

abbrev pub AllBlocks : (Block → Type 0) → List Block → Type 0
AllBlocks P [] = Unit {0}
AllBlocks P (b ∷ bs) = P b × AllBlocks P bs

-- No block that fits leaves less than `diff` bytes over.
abbrev AtLeast : ℕ → ℕ → List Block → Type 0
AtLeast size diff = AllBlocks (λ b. fits size b ≡ true → diff ≤ b.size - size)

-- What the search may answer from a state with `diff` and `best`.
abbrev Searched : ℕ → List Block → ℕ → Option ℕ → Option ℕ → Type 0
Searched size bs diff best r =
    ((r ≡ best) × AtLeast size diff bs)
    ⊎ ((c : Block) × In c bs
        × (r ≡ some c.addr)
        × (fits size c ≡ true)
        × (c.size - size < diff)
        × AtLeast size (c.size - size) bs)

AtLeast-weaken : (size d e : ℕ) (bs : List Block) → d ≤ e → AtLeast size e bs → AtLeast size d bs
AtLeast-weaken size d e [] le a = tt
AtLeast-weaken size d e (b ∷ bs) le a =
    (λ f. omega (arith, a.0 f), AtLeast-weaken size d e bs le a.1)

best_fit-Searched :
    (size : ℕ) (bs : List Block) (diff : ℕ) (best : Option ℕ)
    → Searched size bs diff best (best_fit size bs diff best)
unfolding best_fit
best_fit-Searched size [] diff best = inl (refl, tt)
best_fit-Searched size (b ∷ bs) diff best =
    elim (Bool-cases (fits size b && ltb (b.size - size) diff)) [
      | inl better ↦ rw better (
          improved (best_fit size bs (b.size - size) (some b.addr)) better
            (best_fit-Searched size bs (b.size - size) (some b.addr)))
      | inr worse ↦
          rw worse (kept (best_fit size bs diff best) worse (best_fit-Searched size bs diff best))
    ]
  where
    improved :
        (r : Option ℕ)
        → (fits size b && ltb (b.size - size) diff) ≡ true
        → Searched size bs (b.size - size) (some b.addr) r
        → Searched size (b ∷ bs) diff best r
    improved r better (inl (e, a)) =
        inr (b, inl refl, e, ground arith, ground arith, (λ f. omega arith, a))
    improved r better (inr (c, m, e, f, lt, a)) =
        inr (c, inr m, e, f, ground arith, (λ g. omega (arith, lt), a))

    kept :
        (r : Option ℕ)
        → (fits size b && ltb (b.size - size) diff) ≡ false
        → Searched size bs diff best r
        → Searched size (b ∷ bs) diff best r
    kept r worse (inl (e, a)) = inl (e, (λ f. ground (arith, f), a))
    kept r worse (inr (c, m, e, f, lt, a)) =
        inr (c, inr m, e, f, lt, (λ g. ground (arith, g, lt), a))

-- The answers of the search over a whole list whose blocks are smaller than the address space: the
-- address of a block that is free, large enough and as small as any such block, or none when no
-- block is free and large enough.
abbrev pub IsBest : ℕ → List Block → Option ℕ → Type 0
IsBest size bs r =
    ((r ≡ none) × AllBlocks (λ b. fits size b ≡ false) bs)
    ⊎ ((c : Block) × In c bs
        × (r ≡ some c.addr)
        × (fits size c ≡ true)
        × AllBlocks (λ b. fits size b ≡ true → c.size ≤ b.size) bs)

none_fits :
    (size diff : ℕ) (bs : List Block)
    → AllBlocks (λ b. b.size < diff) bs
    → AtLeast size diff bs
    → AllBlocks (λ b. fits size b ≡ false) bs
none_fits size diff [] s a = tt
none_fits size diff (b ∷ bs) s a = (
  elim (Bool-cases (fits size b)) [ inl f ↦ absurd (omega (arith, a.0 f, s.0)) | inr n ↦ n ],
  none_fits size diff bs s.1 a.1,
)

smallest :
    (size : ℕ) (c : Block) (bs : List Block)
    → fits size c ≡ true
    → AtLeast size (c.size - size) bs
    → AllBlocks (λ b. fits size b ≡ true → c.size ≤ b.size) bs
smallest size c [] f a = tt
smallest size c (b ∷ bs) f a = (λ g. ground (arith, a.0 g, g, f), smallest size c bs f a.1)

pub best_fit-IsBest :
    (size : ℕ) (bs : List Block)
    → AllBlocks (λ b. b.size < 2 ^ 64 - 1) bs
    → IsBest size bs (best_fit size bs 0xFFFFFFFFFFFFFFFF none)
best_fit-IsBest size bs s =
    conclude (best_fit size bs 0xFFFFFFFFFFFFFFFF none)
      (best_fit-Searched size bs 0xFFFFFFFFFFFFFFFF none)
  where
    conclude : (r : Option ℕ) → Searched size bs 0xFFFFFFFFFFFFFFFF none r → IsBest size bs r
    conclude r (inl (e, a)) = inl (e, none_fits size 0xFFFFFFFFFFFFFFFF bs s a)
    conclude r (inr (c, m, e, f, lt, a)) = inr (c, m, e, f, smallest size c bs f a)
