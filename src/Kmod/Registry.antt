-- ===== src/Kmod/Registry.antt =====
-- The searches of the module manager by name.
use Prim.{Unit}
use sirius_education.Common.{
  ℕ, ◌<◌, ◌≡◌, ◌≢◌, refl, true, false, none, some, List, [], ◌∷◌, ◌++◌, map, length, arith, inl,
  inr, ◌⊎◌, if◌then◌else◌,
}
use sirius_education.Common.Ints.{pos, negsuc}
use sirius_education.CString.Compare.{is_text, cstring, strcmp-Compared}
use sirius_education.Kmod.{equals, Symbol, find_symbol, Module, freed_by, unload}

-- The names of the list are terminated texts other than `t`.
abbrev pub Others : List ℕ → List (List ℕ) → Type 0
Others t [] = Unit
Others t (n ∷ ns) =
    ((u : List ℕ) × (q : List ℕ) × (n ≡ cstring u q) × (is_text u ≡ true) × (u ≢ t)) × Others t ns

equals-cstring :
    (u t q r : List ℕ)
    → is_text u ≡ true
    → is_text t ≡ true
    → 0 < length t
    → (u ≡ t) × (equals (cstring u q) (cstring t r) ≡ some true)
      ⊎ (u ≢ t) × (equals (cstring u q) (cstring t r) ≡ some false)
unfolding equals
equals-cstring u t q r tu tx long = elim (strcmp-Compared u t q r tu tx (omega (arith, long))) [
  | inl (e, z) ↦ inl (e, rw (z, equals) refl)
  | inr (ne, z) ↦ inr (ne, rw (z, equals) refl)
]

equals_other :
    (u t q r : List ℕ)
    → is_text u ≡ true
    → is_text t ≡ true
    → 0 < length t
    → u ≢ t
    → equals (cstring u q) (cstring t r) ≡ some false
equals_other u t q r tu tx long ne = elim (equals-cstring u t q r tu tx long) [
  | inl (e, z) ↦ absurd (ne e)
  | inr (e, z) ↦ z
]

equals_same :
    (t q r : List ℕ)
    → is_text t ≡ true
    → 0 < length t
    → equals (cstring t q) (cstring t r) ≡ some true
equals_same t q r tx long = elim (equals-cstring t t q r tx tx long) [
  | inl (e, z) ↦ z
  | inr (ne, z) ↦ absurd (ne refl)
]

-- A symbol is found at the first entry of its name: with only other names before it, the search gives
-- the address; in a table of other names it gives 0. The name searched is a non-empty text.
pub find_symbol_lem :
    (t r q : List ℕ) (address : ℕ) (before after : List Symbol)
    → is_text t ≡ true
    → 0 < length t
    → Others t (map (λ (s : Symbol). s.name) before)
    → (find_symbol before (cstring t r) ≡ some 0)
      × (find_symbol
            (before ++ (record { name = cstring t q; address = address } ∷ after))
            (cstring t r)
          ≡ some address)
unfolding find_symbol
find_symbol_lem t r q address [] after tx long os =
    (refl, rw (equals_same t q r tx long, find_symbol) refl)
find_symbol_lem t r q address (s ∷ before) after tx long ((u, p, e, tu, ne), os) = (
  rw (skip, find_symbol) (find_symbol_lem t r q address before after tx long os).0,
  rw (skip, find_symbol) (find_symbol_lem t r q address before after tx long os).1,
)
  where
    skip : equals s.name (cstring t r) ≡ some false
    skip = rw e (equals_other u t p r tu tx long ne)

-- Unloading the module of a name, a non-empty text: the first one of that name, with only other names
-- before it, runs its exit routine, gives back its memory and leaves the list, which keeps all the
-- others in order; without one of that name the answer is -2, nothing is freed and the list stays.
pub unload_lem :
    (t r q : List ℕ) (m : Module) (before after : List Module)
    → is_text t ≡ true
    → 0 < length t
    → Others t (map (λ (n : Module). n.name) before)
    → m.name ≡ cstring t q
    → (unload (cstring t r) before
        ≡ some (record { result = negsuc 1; exited = none; freed = []; modules = before }))
      × (unload (cstring t r) (before ++ (m ∷ after))
          ≡ some (record {
            result = pos 0;
            exited = if m.has_exit then some m.addr else none;
            freed = freed_by m;
            modules = before ++ after;
          }))
unfolding unload
unload_lem t r q m [] after tx long os named = (refl, rw (found, unload) refl)
  where
    found : equals m.name (cstring t r) ≡ some true
    found = rw named (equals_same t q r tx long)
unload_lem t r q m (n ∷ before) after tx long ((u, p, e, tu, ne), os) named = (
  rw (skip, (unload_lem t r q m before after tx long os named).0, unload) refl,
  rw (skip, (unload_lem t r q m before after tx long os named).1, unload) refl,
)
  where
    skip : equals n.name (cstring t r) ≡ some false
    skip = rw e (equals_other u t p r tu tx long ne)
