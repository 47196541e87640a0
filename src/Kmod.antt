-- ===== src/Kmod.antt =====
-- The registry of kernel modules (kernel/kmods/manager/kmod.c) and the symbols the kernel exports to
-- them (symbols.c). A name is the bytes from its pointer on; `none` is a read beyond them.
pub mod Registry
use sirius_education.Common.{
  ℕ, zero, suc, Bool, true, false, Option, none, some, List, [], ◌∷◌, ◌++◌, ◌==◌, if◌then◌else◌,
}
use sirius_education.Common.Ints.{ℤ, pos, negsuc}
use sirius_education.CString.{strcmp}

-- `strcmp(a, b) == 0`
unfoldable pub equals : List ℕ → List ℕ → Option Bool
equals a b = elim (strcmp a b) [
  | none ↦ none
  | some (pos zero) ↦ some true
  | some (pos (suc n)) ↦ some false
  | some (negsuc n) ↦ some false
]

-- `kernel_symbol_t`
pub record Symbol : Type 0 where
  pub name : List ℕ
  pub address : ℕ

-- `kmod_find_symbol` in the table `kernel_symtab` without its sentinel
unfoldable pub find_symbol : List Symbol → List ℕ → Option ℕ
unfolding equals
find_symbol [] name = some 0
find_symbol (s ∷ ss) name =
    let rest = find_symbol ss name in
    elim (equals s.name name) [ none ↦ none | some found ↦ if found then some s.address else rest ]

-- `module_t`, at its address; `has_exit` for a pointer to the exit routine, and the pointer to the array
-- of the `section_allocs`, 0 for none.
pub record Module : Type 0 where
  pub addr : ℕ
  pub name : List ℕ
  pub has_exit : Bool
  pub section_allocs : ℕ
  pub sections : List ℕ

-- `kmod_init`: the list `modules_head`.
unfoldable pub init : List Module
init = []

-- `kmod_register_tracked_module`
unfoldable pub register_tracked_module : Module → List Module → List Module
register_tracked_module m modules = m ∷ modules

-- The loop that frees the sections, in the order of the calls of `kfree`.
unfoldable pub free_sections : List ℕ → List ℕ
free_sections [] = []
free_sections (a ∷ rest) = let freed = free_sections rest in if a == 0 then freed else a ∷ freed

-- What unloading a module that was found gives to `kfree`.
unfoldable pub freed_by : Module → List ℕ
unfolding free_sections
freed_by m =
    if m.section_allocs == 0
    then m.addr ∷ []
    else free_sections m.sections ++ (m.section_allocs ∷ m.addr ∷ [])

-- What `kmod_unload` answers, the module whose exit routine has run, the pointers it freed, in order,
-- and the list it leaves.
pub record Unloaded : Type 0 where
  pub result : ℤ
  pub exited : Option ℕ
  pub freed : List ℕ
  pub modules : List Module

-- `kmod_unload`
unfoldable pub unload : List ℕ → List Module → Option Unloaded
unfolding equals freed_by
unload name [] = some (record { result = negsuc 1; exited = none; freed = []; modules = [] })
unload name (m ∷ ms) =
    let rest = unload name ms in
    elim (equals m.name name) [
      | none ↦ none
      | some found ↦
          if found
          then some (record {
            result = pos 0;
            exited = if m.has_exit then some m.addr else none;
            freed = freed_by m;
            modules = ms;
          })
          else elim rest [ none ↦ none | some u ↦ some (record u { modules = m ∷ u.modules }) ]
    ]
