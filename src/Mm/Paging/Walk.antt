-- ===== src/Mm/Paging/Walk.antt =====
-- The lookup of an address, level by level, and what a new table does to it.
use sirius_education.Common.{
  ℕ, suc, ◌*◌, ◌≡◌, ◌≢◌, refl, sym, ap, ◌∙◌, Bool, true, false, not, ◌&&◌, inl, inr, ◌==◌, ==_iff,
  ne→==, Bool-cases, arith, if◌then◌else◌,
}
use sirius_education.Common.Word.{page_size}
use sirius_education.Mm.Pmm.{alloc_page}
use sirius_education.Mm.Paging.{
  Entry, Vmm, pml4_index, pdpt_index, pd_index, pt_index, get_physical_address,
}
use sirius_education.Mm.Paging.Tree.{IsTree, fresh, grown, grown_entry, grown_here, grown_empty}

-- What a lookup that has reached the table `u` of a level answers.
abbrev pub pt_value : Entry → ℕ
pt_value e = if not e.present then 0 else e.frame * page_size

abbrev pub from_pt : ℕ → ℕ → Vmm → ℕ
from_pt u virt st = pt_value (st.tables u (pt_index virt))

abbrev pub pd_value : Entry → ℕ → Vmm → ℕ
pd_value e virt st =
    if not e.present then 0 else if e.large then e.frame * page_size else from_pt e.frame virt st

abbrev pub from_pd : ℕ → ℕ → Vmm → ℕ
from_pd u virt st = pd_value (st.tables u (pd_index virt)) virt st

abbrev pub pdpt_value : Entry → ℕ → Vmm → ℕ
pdpt_value e virt st = if not e.present then 0 else from_pd e.frame virt st

abbrev pub from_pdpt : ℕ → ℕ → Vmm → ℕ
from_pdpt u virt st = pdpt_value (st.tables u (pdpt_index virt)) virt st

abbrev pub pml4_value : Entry → ℕ → Vmm → ℕ
pml4_value e virt st = if not e.present then 0 else from_pdpt e.frame virt st

abbrev pub from_pml4 : ℕ → ℕ → Vmm → ℕ
from_pml4 u virt st = pml4_value (st.tables u (pml4_index virt)) virt st

pub get_physical_address-eq :
    (root virt : ℕ) (st : Vmm) → get_physical_address root virt st ≡ from_pml4 root virt st
unfolding get_physical_address
get_physical_address-eq root virt st = refl

module _ {level parent slot : ℕ → ℕ} {st : Vmm} (v : IsTree level parent slot st) (is_pd : Bool)
    (t i k flags : ℕ) (deep : level t ≡ suc (suc k)) (enough : (alloc_page st.pmm).0 ≢ 0)
    (absent : (st.tables t i).present ≡ false) (flat : level t ≡ 2 → is_pd ≡ true) where
  abbrev after : Vmm
  after = grown v is_pd t i k flags deep enough absent flat

  abbrev new : ℕ
  new = fresh v is_pd t i k flags deep enough absent flat

  -- An entry that is not the new one.
  same : (u j : ℕ) → level u ≢ 0 → ((u == t) && (j == i)) ≡ false → after.tables u j ≡ st.tables u j
  same = grown_entry v is_pd t i k flags deep enough absent flat

  -- The new entry.
  here :
      ((after.tables t i).present ≡ true)
      × ((after.tables t i).frame ≡ new)
      × (level t ≡ 2 → (after.tables t i).large ≡ false)
  here = grown_here v is_pd t i k flags deep enough absent flat

  bare : (j : ℕ) → (after.tables new j).present ≡ false
  bare = grown_empty v is_pd t i k flags deep enough absent flat

  pt_kept : (u virt : ℕ) → level u ≡ 1 → from_pt u virt after ≡ from_pt u virt st
  pt_kept u virt one = rw (same u (pt_index virt) (omega (arith, one)) (ground (arith, apart))) refl
    where
      apart : (u == t) ≡ false
      apart = ne→== u t (λ e. omega (arith, one, deep, ap level e))

  -- The entry looked at is the new one.
  at_new : (w : Vmm) (u j : ℕ) → (u == t) && (j == i) ≡ true → w.tables u j ≡ w.tables t i
  at_new w u j h =
      ap (λ (x : ℕ). w.tables x j) ((==_iff u t).0 (ground (arith, h)))
      ∙ ap (λ (x : ℕ). w.tables t x) ((==_iff j i).0 (ground (arith, h)))

  level_at : (u j : ℕ) → (u == t) && (j == i) ≡ true → level t ≡ level u
  level_at u j h = ap level (sym ((==_iff u t).0 (ground (arith, h))))

  pt_new : (virt : ℕ) → from_pt new virt after ≡ 0
  pt_new virt = rw (bare (pt_index virt)) refl

  pd_new : (virt : ℕ) → from_pd new virt after ≡ 0
  pd_new virt = rw (bare (pd_index virt)) refl

  pdpt_new : (virt : ℕ) → from_pdpt new virt after ≡ 0
  pdpt_new virt = rw (bare (pdpt_index virt)) refl

  pd_through :
      (e : Entry) (virt : ℕ)
      → e.present ≡ true
      → e.large ≡ false
      → e.frame ≡ new
      → pd_value e virt after ≡ 0
  pd_through e virt p l x = rw (p, l) (ap (λ (y : ℕ). from_pt y virt after) x ∙ pt_new virt)

  pd_absent : (e : Entry) (virt : ℕ) (w : Vmm) → e.present ≡ false → pd_value e virt w ≡ 0
  pd_absent e virt w p = rw p refl

  pd_below :
      (e : Entry) (virt : ℕ)
      → (e.present ≡ true → e.large ≡ false → from_pt e.frame virt after ≡ from_pt e.frame virt st)
      → pd_value e virt after ≡ pd_value e virt st
  pd_below e virt same_below = elim (Bool-cases e.present) [
    | inl p ↦ rw p (elim (Bool-cases e.large) [ inl l ↦ rw l refl | inr l ↦ rw l (same_below p l) ])
    | inr p ↦ rw p refl
  ]

  pd_kept : (u virt : ℕ) → level u ≡ 2 → from_pd u virt after ≡ from_pd u virt st
  pd_kept u virt lv = elim (Bool-cases ((u == t) && (pd_index virt == i))) [
    | inl h ↦
        ap (λ (e : Entry). pd_value e virt after) (at_new after u (pd_index virt) h)
        ∙ (pd_through (after.tables t i) virt here.0 (here.2 (level_at u (pd_index virt) h ∙ lv))
              here.1
            ∙ sym (
                ap (λ (e : Entry). pd_value e virt st) (at_new st u (pd_index virt) h)
                ∙ pd_absent (st.tables t i) virt st absent))
    | inr o ↦
        ap (λ (e : Entry). pd_value e virt after) (same u (pd_index virt) (omega (arith, lv)) o)
        ∙ pd_below (st.tables u (pd_index virt)) virt (λ p l.
          pt_kept (st.tables u (pd_index virt)).frame virt
            (omega (arith, lv, (v.child u (pd_index virt) (omega (arith, lv)) p (λ two. l)).0)))
  ]

  pdpt_through :
      (e : Entry) (virt : ℕ) → e.present ≡ true → e.frame ≡ new → pdpt_value e virt after ≡ 0
  pdpt_through e virt p x = rw (p) (ap (λ (y : ℕ). from_pd y virt after) x ∙ pd_new virt)

  pdpt_absent : (e : Entry) (virt : ℕ) (w : Vmm) → e.present ≡ false → pdpt_value e virt w ≡ 0
  pdpt_absent e virt w p = rw p refl

  pdpt_below :
      (e : Entry) (virt : ℕ)
      → (e.present ≡ true → from_pd e.frame virt after ≡ from_pd e.frame virt st)
      → pdpt_value e virt after ≡ pdpt_value e virt st
  pdpt_below e virt same_below = elim (Bool-cases e.present) [
    | inl p ↦ rw p (same_below p)
    | inr p ↦ rw p refl
  ]

  pdpt_kept : (u virt : ℕ) → level u ≡ 3 → from_pdpt u virt after ≡ from_pdpt u virt st
  pdpt_kept u virt lv = elim (Bool-cases ((u == t) && (pdpt_index virt == i))) [
    | inl h ↦
        ap (λ (e : Entry). pdpt_value e virt after) (at_new after u (pdpt_index virt) h)
        ∙ (pdpt_through (after.tables t i) virt here.0 here.1
            ∙ sym (
                ap (λ (e : Entry). pdpt_value e virt st) (at_new st u (pdpt_index virt) h)
                ∙ pdpt_absent (st.tables t i) virt st absent))
    | inr o ↦
        ap (λ (e : Entry). pdpt_value e virt after) (same u (pdpt_index virt) (omega (arith, lv)) o)
        ∙ pdpt_below (st.tables u (pdpt_index virt)) virt (λ p.
          pd_kept (st.tables u (pdpt_index virt)).frame virt (
            omega (
              arith,
              lv,
              (v.child u (pdpt_index virt) (omega (arith, lv)) p
                  (λ two. absurd (omega (arith, lv, two)))).0,
            )))
  ]

  pml4_through :
      (e : Entry) (virt : ℕ) → e.present ≡ true → e.frame ≡ new → pml4_value e virt after ≡ 0
  pml4_through e virt p x = rw (p) (ap (λ (y : ℕ). from_pdpt y virt after) x ∙ pdpt_new virt)

  pml4_absent : (e : Entry) (virt : ℕ) (w : Vmm) → e.present ≡ false → pml4_value e virt w ≡ 0
  pml4_absent e virt w p = rw p refl

  pml4_below :
      (e : Entry) (virt : ℕ)
      → (e.present ≡ true → from_pdpt e.frame virt after ≡ from_pdpt e.frame virt st)
      → pml4_value e virt after ≡ pml4_value e virt st
  pml4_below e virt same_below = elim (Bool-cases e.present) [
    | inl p ↦ rw p (same_below p)
    | inr p ↦ rw p refl
  ]

  pml4_kept : (u virt : ℕ) → level u ≡ 4 → from_pml4 u virt after ≡ from_pml4 u virt st
  pml4_kept u virt lv = elim (Bool-cases ((u == t) && (pml4_index virt == i))) [
    | inl h ↦
        ap (λ (e : Entry). pml4_value e virt after) (at_new after u (pml4_index virt) h)
        ∙ (pml4_through (after.tables t i) virt here.0 here.1
            ∙ sym (
                ap (λ (e : Entry). pml4_value e virt st) (at_new st u (pml4_index virt) h)
                ∙ pml4_absent (st.tables t i) virt st absent))
    | inr o ↦
        ap (λ (e : Entry). pml4_value e virt after) (same u (pml4_index virt) (omega (arith, lv)) o)
        ∙ pml4_below (st.tables u (pml4_index virt)) virt (λ p.
          pdpt_kept (st.tables u (pml4_index virt)).frame virt (
            omega (
              arith,
              lv,
              (v.child u (pml4_index virt) (omega (arith, lv)) p
                  (λ two. absurd (omega (arith, lv, two)))).0,
            )))
  ]

  -- A new table changes no lookup.
  pub new_table-keeps :
      (root virt : ℕ)
      → level root ≡ 4
      → get_physical_address root virt after ≡ get_physical_address root virt st
  new_table-keeps root virt top =
      get_physical_address-eq root virt after
      ∙ (pml4_kept root virt top ∙ sym (get_physical_address-eq root virt st))
