-- ===== src/CString.antt =====
-- The string routines of kernel/lib/string.c. A pointer is the list of the bytes that can be reached
-- from it; `none` is a read or a write beyond them.
pub mod Compare
pub mod Copy
use sirius_education.Common.{
  ℕ, zero, suc, ◌+◌, Bool, true, false, ◌&&◌, Option, none, some, List, [], ◌∷◌, get_elem?, ◌==◌,
  if◌then◌else◌,
}
use sirius_education.Common.Ints.{ℤ, pos, negsuc}
use mathlib.Core.Option

-- `memset`: the bytes after it.
unfoldable pub memset : List ℕ → ℕ → ℕ → Option (List ℕ)
memset s val zero = some s
memset [] val (suc count) = none
memset (x ∷ s) val (suc count) = Option.map (λ (r : List ℕ). val ∷ r) (memset s val count)

-- `memcpy`, of areas that do not overlap
unfoldable pub memcpy : List ℕ → List ℕ → ℕ → Option (List ℕ)
memcpy s1 s2 zero = some s1
memcpy [] s2 (suc n) = none
memcpy (x ∷ s1) [] (suc n) = none
memcpy (x ∷ s1) (y ∷ s2) (suc n) = Option.map (λ (r : List ℕ). y ∷ r) (memcpy s1 s2 n)

-- `*p_dest = '\0';`
unfoldable pub terminate : List ℕ → Option (List ℕ)
terminate [] = none
terminate (x ∷ d) = some (0 ∷ d)

-- `strcpy`
unfoldable pub strcpy : List ℕ → List ℕ → Option (List ℕ)
unfolding terminate
strcpy dest [] = none
strcpy dest (zero ∷ src) = terminate dest
strcpy [] (suc c ∷ src) = none
strcpy (x ∷ dest) (suc c ∷ src) = Option.map (λ (r : List ℕ). suc c ∷ r) (strcpy dest src)

-- `strncpy`: it copies `count` bytes, also those after a terminator, and adds one.
unfoldable pub strncpy : List ℕ → List ℕ → ℕ → Option (List ℕ)
unfolding terminate
strncpy dest src zero = terminate dest
strncpy [] src (suc count) = none
strncpy (x ∷ dest) [] (suc count) = none
strncpy (x ∷ dest) (y ∷ src) (suc count) =
    Option.map (λ (r : List ℕ). y ∷ r) (strncpy dest src count)

-- `strlen`
unfoldable pub strlen : List ℕ → Option ℕ
strlen [] = none
strlen (zero ∷ s) = some 0
strlen (suc c ∷ s) = Option.map suc (strlen s)

-- The test in the loop of `strcmp`, after both pointers have moved on: both strings end here.
unfoldable pub both_end : List ℕ → List ℕ → Option Bool
both_end [] b = none
both_end (x ∷ a) [] = none
both_end (x ∷ a) (y ∷ b) = some ((x == y) && ((x + y) == 0))

-- `strcmp`
unfoldable pub strcmp : List ℕ → List ℕ → Option ℤ
unfolding both_end
strcmp [] b = none
strcmp (x ∷ a) [] = none
strcmp (x ∷ a) (y ∷ b) =
    let rest = strcmp a b in
    if x == y
    then elim (both_end a b) [ none ↦ none | some at_end ↦ if at_end then some (pos 0) else rest ]
    else some (negsuc 0)

-- `memcmp`
unfoldable pub memcmp : List ℕ → List ℕ → ℕ → Option ℤ
memcmp a b zero = some (pos 0)
memcmp [] b (suc n) = none
memcmp (x ∷ a) [] (suc n) = none
memcmp (x ∷ a) (y ∷ b) (suc n) = let rest = memcmp a b n in if x == y then rest else some (pos 1)

-- `strchr`: the distance of the pointer, `some none` for NULL.
unfoldable pub strchr : List ℕ → ℕ → Option (Option ℕ)
strchr [] c = none
strchr (x ∷ s) c =
    let rest = strchr s c in
    if x == c then some (some 0) else if x == 0 then some none else Option.map (Option.map suc) rest

-- The loop of `strrchr`, from the byte at the distance `k` back.
unfoldable pub search_back : List ℕ → ℕ → ℕ → Option (Option ℕ)
search_back s c zero = elim (get_elem? s 0) [
  | none ↦ none
  | some x ↦ if x == c then some (some 0) else some none
]
search_back s c (suc k) =
    let rest = search_back s c k in
    elim (get_elem? s (suc k)) [
      | none ↦ none
      | some x ↦ if x == c then some (some (suc k)) else rest
    ]

-- `strrchr`
unfoldable pub strrchr : List ℕ → ℕ → Option (Option ℕ)
unfolding search_back strlen
strrchr s c = elim (strlen s) [ none ↦ none | some k ↦ search_back s c k ]
