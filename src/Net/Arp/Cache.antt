-- ===== src/Net/Arp/Cache.antt =====
-- The cache as a map from addresses to hardware addresses.
use sirius_education.Common.{
  ℕ, zero, suc, ◌+◌, ◌≤◌, ◌<◌, ◌≡◌, ◌≢◌, refl, ap, true, false, not, inl, inr, Option, none, some,
  List, [], ◌∷◌, length, get_or, ==-refl, Bool-cases, Option-cases, arith, if◌then◌else◌,
}
use sirius_education.Net.Arp.{Arp, Entry, cache_max, matches, lookup, update, fill}

-- The number of valid entries for an address.
unfoldable pub copies : ℕ → List Entry → ℕ
copies ip [] = 0
copies ip (e ∷ es) = if matches ip e then copies ip es + 1 else copies ip es

-- Every address stands in at most one valid entry of the 32, and the victim is one of them.
pub record IsValid (a : Arp) : Type 0 where
  pub sized : length a.cache ≡ cache_max
  pub victim_in : a.victim_idx < cache_max
  pub once : (ip : ℕ) → copies ip a.cache ≤ 1

abbrev pub entry : ℕ → List ℕ → Entry
entry ip mac = record { ip_addr = ip; mac_addr = mac; is_valid = true }

-- The cache after `ip` is given `mac` in place of nothing that the others need.
abbrev pub Same : ℕ → List ℕ → List Entry → List Entry → Type 0
Same ip mac es es' =
    (length es' ≡ length es)
    × (lookup ip es' ≡ some mac)
    × ((q : ℕ) → q ≢ ip → lookup q es' ≡ lookup q es)
    × ((q : ℕ) → q ≢ ip → copies q es' ≡ copies q es)

other_miss : (e : Entry) (ip q : ℕ) → matches ip e ≡ true → q ≢ ip → matches q e ≡ false
other_miss e ip q hit ne = ground (arith, hit)

cons-Same :
    (ip : ℕ) (mac : List ℕ) (e : Entry) (es es' : List Entry)
    → matches ip e ≡ false
    → Same ip mac es es'
    → Same ip mac (e ∷ es) (e ∷ es')
unfolding lookup copies
cons-Same ip mac e es es' miss s = (
  ap suc s.0,
  rw miss s.1,
  λ q ne. ap (λ (o : Option (List ℕ)). if matches q e then some e.mac_addr else o) (s.2 q ne),
  λ q ne. ap (λ (n : ℕ). if matches q e then n + 1 else n) (s.3 q ne),
)

-- A new head for `ip`, in place of one that no other address needs.
head-Same :
    (ip : ℕ) (mac : List ℕ) (e e' : Entry) (es : List Entry)
    → matches ip e' ≡ true
    → e'.mac_addr ≡ mac
    → ((q : ℕ) → q ≢ ip → matches q e ≡ false)
    → Same ip mac (e ∷ es) (e' ∷ es)
unfolding lookup copies
head-Same ip mac e e' es hit m others = (
  refl,
  rw hit (ap some m),
  λ q ne. rw (others q ne, other_miss e' ip q hit ne) refl,
  λ q ne. rw (others q ne, other_miss e' ip q hit ne) refl,
)

abbrev pub Updated : ℕ → List ℕ → List Entry → Option (List Entry) → Type 0
Updated ip mac es none = (lookup ip es ≡ none) × (copies ip es ≡ 0)
Updated ip mac es (some es') = Same ip mac es es' × (copies ip es' ≡ copies ip es)

pub update-Updated :
    (ip : ℕ) (mac : List ℕ) (es : List Entry) → Updated ip mac es (update ip mac es)
unfolding update lookup copies
update-Updated ip mac [] = (refl, refl)
update-Updated ip mac (e ∷ es) = elim (Bool-cases (matches ip e)) [
  | inl hit ↦ rw hit (
    head-Same ip mac e (record e { mac_addr = mac }) es hit refl (λ q ne. other_miss e ip q hit ne),
    rw hit refl,
  )
  | inr miss ↦ elim (Option-cases (update ip mac es)) [
    | inl nothing ↦
        rw (miss, nothing)
          (
            missed miss (rw nothing at (update-Updated ip mac es)).0,
            unmatched miss (rw nothing at (update-Updated ip mac es)).1,
          )
    | inr (es', found) ↦
        rw (miss, found) (further es' miss (rw found at (update-Updated ip mac es)))
  ]
]
  where
    missed : matches ip e ≡ false → lookup ip es ≡ none → lookup ip (e ∷ es) ≡ none
    missed miss u = rw miss u

    unmatched : matches ip e ≡ false → copies ip es ≡ 0 → copies ip (e ∷ es) ≡ 0
    unmatched miss u = rw miss u

    further :
        (es' : List Entry)
        → matches ip e ≡ false
        → Updated ip mac es (some es')
        → Updated ip mac (e ∷ es) (some (e ∷ es'))
    further es' miss (s, n) = (cons-Same ip mac e es es' miss s, rw miss n)

-- Without a match there is no pair to find.
pub unmatched_miss :
    (ip : ℕ) (e : Entry) (es : List Entry)
    → copies ip (e ∷ es) ≡ 0
    → (matches ip e ≡ false) × (copies ip es ≡ 0)
unfolding copies
unmatched_miss ip e es n = elim (Bool-cases (matches ip e)) [
  | inl hit ↦ absurd (omega (arith, rw hit at n))
  | inr miss ↦ (miss, rw miss at n)
]

abbrev pub Filled : ℕ → List ℕ → List Entry → Option (List Entry) → Type 0
Filled ip mac es none = (i : ℕ) → i < length es → (get_or es i (entry ip mac)).is_valid ≡ true
Filled ip mac es (some es') = Same ip mac es es' × (copies ip es' ≡ 1)

pub fill-Filled :
    (ip : ℕ) (mac : List ℕ) (es : List Entry) → copies ip es ≡ 0 → Filled ip mac es (fill ip mac es)
unfolding fill
fill-Filled ip mac [] once = λ i lt. absurd (omega (arith, lt))
fill-Filled ip mac (e ∷ es) once = elim (Bool-cases (not e.is_valid)) [
  | inl free ↦ rw free (
    head-Same ip mac e (entry ip mac) es (==-refl ip) refl (λ q ne. ground (arith, free)),
    first (unmatched_miss ip e es once).1,
  )
  | inr used ↦ elim (Option-cases (fill ip mac es)) [
    | inl full ↦
        rw (used, full)
          (all_used (ground (arith, used))
            (rw full at (fill-Filled ip mac es (unmatched_miss ip e es once).1)))
    | inr (es', found) ↦
        rw (used, found)
          (
            cons-Same ip mac e es es' (unmatched_miss ip e es once).0
                (rw found at (fill-Filled ip mac es (unmatched_miss ip e es once).1)).0,
            further es' (unmatched_miss ip e es once).0
                (rw found at (fill-Filled ip mac es (unmatched_miss ip e es once).1)).1,
          )
  ]
]
  where
    first : copies ip es ≡ 0 → copies ip (entry ip mac ∷ es) ≡ 1
    first n = unfold copies in rw (==-refl ip) (omega (arith, n))

    all_used :
        e.is_valid ≡ true
        → ((i : ℕ) → i < length es → (get_or es i (entry ip mac)).is_valid ≡ true)
        → (i : ℕ) → i < length (e ∷ es)
        → (get_or (e ∷ es) i (entry ip mac)).is_valid ≡ true
    all_used used h zero lt = used
    all_used used h (suc i) lt = h i (omega (arith, lt))

    further :
        (es' : List Entry) → matches ip e ≡ false → copies ip es' ≡ 1 → copies ip (e ∷ es') ≡ 1
    further es' miss n = unfold copies in rw miss n
