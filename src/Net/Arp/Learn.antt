-- ===== src/Net/Arp/Learn.antt =====
-- `arp_cache_insert` and what it does to the entries.
use sirius_education.Common.{
  ℕ, zero, suc, ◌+◌, ◌%◌, ◌≤◌, ◌<◌, ◌≡◌, ◌≢◌, refl, sym, ◌∙◌, true, ◌⊎◌, inl, inr, none, some, List,
  [], ◌∷◌, set, length, length-set, get_or, ◌==◌, ==_iff, ==-refl, ==→ne, ne→==, Bool-cases,
  Option-cases, arith,
}
use sirius_education.Net.Arp.{Arp, Entry, cache_max, matches, lookup, update, fill, insert}
use sirius_education.Net.Arp.Cache.{
  copies, IsValid, entry, Same, unmatched_miss, Updated, update-Updated, Filled, fill-Filled,
}

evict-count :
    (ip q : ℕ) (mac : List ℕ) (es : List Entry) (v : ℕ)
    → q ≢ ip
    → copies q (set es v (entry ip mac)) ≤ copies q es
unfolding copies
evict-count ip q mac [] v ne = omega arith
evict-count ip q mac (e ∷ es) zero ne = ground (arith, ne)
evict-count ip q mac (e ∷ es) (suc v) ne = ground (arith, evict-count ip q mac es v ne)

evict-own :
    (ip : ℕ) (mac : List ℕ) (es : List Entry) (v : ℕ)
    → copies ip es ≡ 0
    → v < length es
    → (lookup ip (set es v (entry ip mac)) ≡ some mac) × (copies ip (set es v (entry ip mac)) ≡ 1)
unfolding lookup copies
evict-own ip mac [] v n lt = absurd (omega (arith, lt))
evict-own ip mac (e ∷ es) zero n lt =
    (rw (==-refl ip) refl, rw (==-refl ip) (omega (arith, (unmatched_miss ip e es n).1)))
evict-own ip mac (e ∷ es) (suc v) n lt = (
  rw (unmatched_miss ip e es n).0
      (evict-own ip mac es v (unmatched_miss ip e es n).1 (omega (arith, lt))).0,
  rw (unmatched_miss ip e es n).0
      (evict-own ip mac es v (unmatched_miss ip e es n).1 (omega (arith, lt))).1,
)

copies-lookup : (q : ℕ) (es : List Entry) → copies q es ≡ 0 → lookup q es ≡ none
unfolding lookup
copies-lookup q [] n = refl
copies-lookup q (e ∷ es) n =
    rw (unmatched_miss q e es n).0 (copies-lookup q es (unmatched_miss q e es n).1)

-- Another address keeps its pair, or was the victim's and is forgotten.
evict-others :
    (ip q : ℕ) (mac : List ℕ) (es : List Entry) (v : ℕ)
    → q ≢ ip
    → copies q es ≤ 1
    → (lookup q (set es v (entry ip mac)) ≡ lookup q es)
      ⊎ ((lookup q (set es v (entry ip mac)) ≡ none) × ((get_or es v (entry ip mac)).ip_addr ≡ q))
unfolding lookup copies
evict-others ip q mac [] v ne once = inl refl
evict-others ip q mac (e ∷ es) zero ne once = elim (Bool-cases (matches q e)) [
  | inr miss ↦ inl (rw (miss, ne→== ip q (λ h. ne (sym h))) refl)
  | inl hit ↦ inr (
    rw (ne→== ip q (λ h. ne (sym h))) (copies-lookup q es (omega (arith, rw hit at once))),
    ground (arith, hit),
  )
]
evict-others ip q mac (e ∷ es) (suc v) ne once =
    ground (arith, evict-others ip q mac es v ne (ground (arith, once)))

-- What `insert` leaves: the pair can be found, every other pair too, or it was the one that had to give
-- way in a cache without a free slot.
abbrev pub Learned : ℕ → List ℕ → Arp → Arp → Type 0
Learned ip mac a a' =
    IsValid a'
    × (lookup ip a'.cache ≡ some mac)
    × ((q : ℕ)
        → q ≢ ip
        → (lookup q a'.cache ≡ lookup q a.cache)
          ⊎ ((lookup q a'.cache ≡ none)
              × ((get_or a.cache a.victim_idx (entry ip mac)).ip_addr ≡ q)
              × ((i : ℕ) → i < cache_max → (get_or a.cache i (entry ip mac)).is_valid ≡ true)))

Same-Learned :
    (ip : ℕ) (mac : List ℕ) (a : Arp) (es : List Entry)
    → IsValid a
    → Same ip mac a.cache es
    → copies ip es ≤ 1
    → Learned ip mac a (record a { cache = es })
Same-Learned ip mac a es v s n = (
  record {
    sized = s.0 ∙ v.sized;
    victim_in = v.victim_in;
    once = λ q. elim (Bool-cases (q == ip)) [
      | inl e ↦ rw ((==_iff q ip).0 e) n
      | inr e ↦ omega (arith, s.3 q (==→ne q ip e), v.once q)
    ];
  },
  s.1,
  λ q ne. inl (s.2 q ne),
)

evict-Learned :
    (ip : ℕ) (mac : List ℕ) (a : Arp)
    → IsValid a
    → copies ip a.cache ≡ 0
    → Filled ip mac a.cache none
    → Learned ip mac a (record a {
      cache = set a.cache a.victim_idx (entry ip mac);
      victim_idx = (a.victim_idx + 1) % cache_max;
    })
evict-Learned ip mac a v n full = (
  record {
    sized = length-set a.cache a.victim_idx (entry ip mac) ∙ v.sized;
    victim_in = omega arith;
    once = λ q. elim (Bool-cases (q == ip)) [
      | inl e ↦ rw ((==_iff q ip).0 e) (omega (arith, own.1))
      | inr e ↦ omega (arith, evict-count ip q mac a.cache a.victim_idx (==→ne q ip e), v.once q)
    ];
  },
  own.0,
  λ q ne. elim (evict-others ip q mac a.cache a.victim_idx ne (v.once q)) [
    | inl same ↦ inl same
    | inr (gone, was) ↦ inr (gone, was, λ i lt. full i (omega (arith, lt, v.sized)))
  ],
)
  where
    own :
        (lookup ip (set a.cache a.victim_idx (entry ip mac)) ≡ some mac)
        × (copies ip (set a.cache a.victim_idx (entry ip mac)) ≡ 1)
    own = evict-own ip mac a.cache a.victim_idx n (omega (arith, v.victim_in, v.sized))

-- Of a sound cache, `arp_cache_insert` makes a sound one (32 entries, no address in two valid ones) in
-- which the address is found with its new hardware address. Every other address is found as before,
-- except one: if all 32 entries were valid, the one at the victim index may be found no more.
pub insert-Learned :
    (ip : ℕ) (mac : List ℕ) (a : Arp) → IsValid a → Learned ip mac a (insert ip mac a)
unfolding insert
insert-Learned ip mac a v = elim (Option-cases (update ip mac a.cache)) [
  | inr (es, known) ↦ rw (known, insert) (old es (rw known at (update-Updated ip mac a.cache)))
  | inl unknown ↦ elim (Option-cases (fill ip mac a.cache)) [
    | inr (es, free) ↦
        rw (unknown, free, insert)
          (new es (
            rw free at
              (fill-Filled ip mac a.cache (rw unknown at (update-Updated ip mac a.cache)).1)))
    | inl full ↦
        rw (unknown, full, insert)
          (evict-Learned ip mac a v (rw unknown at (update-Updated ip mac a.cache)).1 (
            rw full at
              (fill-Filled ip mac a.cache (rw unknown at (update-Updated ip mac a.cache)).1)))
  ]
]
  where
    old :
        (es : List Entry)
        → Updated ip mac a.cache (some es)
        → Learned ip mac a (record a { cache = es })
    old es (s, n) = Same-Learned ip mac a es v s (omega (arith, n, v.once ip))

    new :
        (es : List Entry)
        → Filled ip mac a.cache (some es)
        → Learned ip mac a (record a { cache = es })
    new es (s, n) = Same-Learned ip mac a es v s (omega (arith, n))
