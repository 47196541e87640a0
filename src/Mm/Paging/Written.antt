-- ===== src/Mm/Paging/Written.antt =====
-- The entry of a page is written: what this leaves of the lookups of other pages.
use mathlib.Core.Path.{subst}
use sirius_education.Common.{
  ℕ, suc, ◌≤◌, ◌≡◌, ◌≢◌, refl, sym, ap, ◌∙◌, true, false, ◌&&◌, inl, inr, ◌==◌, ==_iff, ==-refl,
  ne→==, Bool-cases, arith,
}
use sirius_education.Mm.Paging.{Entry, Vmm, pml4_index, pdpt_index, pd_index, pt_index, set_entry}
use sirius_education.Mm.Paging.Tree.{IsTree}
use sirius_education.Mm.Paging.Walk.{
  pt_value, from_pt, pd_value, from_pd, pdpt_value, from_pdpt, pml4_value, from_pml4,
}

module _ {level parent slot : ℕ → ℕ} {st : Vmm} (v : IsTree level parent slot st) (t i : ℕ)
    (new : Entry) (leaf : level t ≡ 1) where
  abbrev written : Vmm
  written = set_entry t i new st

  written_entry : (u j : ℕ) → ((u == t) && (j == i)) ≡ false → written.tables u j ≡ st.tables u j
  written_entry u j o = rw o refl

  pub written_here : written.tables t i ≡ new
  written_here = rw (==-refl t, ==-refl i) refl

  pub above_leaf : (u j : ℕ) → 2 ≤ level u → written.tables u j ≡ st.tables u j
  above_leaf u j l =
      written_entry u j (ground (arith, ne→== u t (λ e. omega (arith, l, leaf, ap level e))))

  pub set_entry-IsTree : IsTree level parent slot written
  set_entry-IsTree = record {
    frames = v.frames;
    memory = v.memory;
    taken = v.taken;
    small = v.small;
    child = λ u j l.
        subst
          (λ (e : Entry).
            e.present ≡ true
            → (level u ≡ 2 → e.large ≡ false)
            → (suc (level e.frame) ≡ level u) × (parent e.frame ≡ u) × (slot e.frame ≡ j))
          (sym (above_leaf u j l)) (v.child u j l);
  }

  module _ (virt : ℕ) where
    pt_other : (u : ℕ) → (u ≡ t → pt_index virt ≢ i) → from_pt u virt written ≡ from_pt u virt st
    pt_other u d = ap pt_value (
        written_entry u (pt_index virt) (elim (Bool-cases (u == t)) [
          | inl e ↦ ground (arith, ne→== (pt_index virt) i (d ((==_iff u t).0 e)))
          | inr o ↦ ground (arith, o)
        ]))

    pd_other :
        (u : ℕ)
        → level u ≡ 2
        → (u ≡ parent t → pd_index virt ≡ slot t → pt_index virt ≢ i)
        → from_pd u virt written ≡ from_pd u virt st
    pd_other u two d =
        ap (λ (e : Entry). pd_value e virt written)
          (above_leaf u (pd_index virt) (omega (arith, two)))
        ∙ pd_same (st.tables u (pd_index virt)) (λ p l.
          pt_other (st.tables u (pd_index virt)).frame (λ e.
            d (sym ((v.child u (pd_index virt) (omega (arith, two)) p (λ q. l)).1) ∙ ap parent e)
              (sym ((v.child u (pd_index virt) (omega (arith, two)) p (λ q. l)).2) ∙ ap slot e)))
      where
        pd_same :
            (e : Entry)
            → (e.present ≡ true
                → e.large ≡ false
                → from_pt e.frame virt written ≡ from_pt e.frame virt st)
            → pd_value e virt written ≡ pd_value e virt st
        pd_same e h = elim (Bool-cases e.present) [
          | inl p ↦ rw p (elim (Bool-cases e.large) [ inl l ↦ rw l refl | inr l ↦ rw l (h p l) ])
          | inr p ↦ rw p refl
        ]

    pdpt_other :
        (u : ℕ)
        → level u ≡ 3
        → (u ≡ parent (parent t)
            → pdpt_index virt ≡ slot (parent t)
            → pd_index virt ≡ slot t
            → pt_index virt ≢ i)
        → from_pdpt u virt written ≡ from_pdpt u virt st
    pdpt_other u three d =
        ap (λ (e : Entry). pdpt_value e virt written)
          (above_leaf u (pdpt_index virt) (omega (arith, three)))
        ∙ pdpt_same (st.tables u (pdpt_index virt)) (λ p.
          pd_other (st.tables u (pdpt_index virt)).frame (omega (arith, three, (known p).0))
            (λ e. d (sym (known p).1 ∙ ap parent e) (sym (known p).2 ∙ ap slot e)))
      where
        known :
            (st.tables u (pdpt_index virt)).present ≡ true
            → (suc (level (st.tables u (pdpt_index virt)).frame) ≡ level u)
              × (parent (st.tables u (pdpt_index virt)).frame ≡ u)
              × (slot (st.tables u (pdpt_index virt)).frame ≡ pdpt_index virt)
        known p =
            v.child u (pdpt_index virt) (omega (arith, three)) p
              (λ two. absurd (omega (arith, three, two)))

        pdpt_same :
            (e : Entry)
            → (e.present ≡ true → from_pd e.frame virt written ≡ from_pd e.frame virt st)
            → pdpt_value e virt written ≡ pdpt_value e virt st
        pdpt_same e h = elim (Bool-cases e.present) [ inl p ↦ rw p (h p) | inr p ↦ rw p refl ]

    pub pml4_other :
        (u : ℕ)
        → level u ≡ 4
        → (u ≡ parent (parent (parent t))
            → pml4_index virt ≡ slot (parent (parent t))
            → pdpt_index virt ≡ slot (parent t)
            → pd_index virt ≡ slot t
            → pt_index virt ≢ i)
        → from_pml4 u virt written ≡ from_pml4 u virt st
    pml4_other u four d =
        ap (λ (e : Entry). pml4_value e virt written)
          (above_leaf u (pml4_index virt) (omega (arith, four)))
        ∙ pml4_same (st.tables u (pml4_index virt)) (λ p.
          pdpt_other (st.tables u (pml4_index virt)).frame (omega (arith, four, (known p).0))
            (λ e. d (sym (known p).1 ∙ ap parent e) (sym (known p).2 ∙ ap slot e)))
      where
        known :
            (st.tables u (pml4_index virt)).present ≡ true
            → (suc (level (st.tables u (pml4_index virt)).frame) ≡ level u)
              × (parent (st.tables u (pml4_index virt)).frame ≡ u)
              × (slot (st.tables u (pml4_index virt)).frame ≡ pml4_index virt)
        known p =
            v.child u (pml4_index virt) (omega (arith, four)) p
              (λ two. absurd (omega (arith, four, two)))

        pml4_same :
            (e : Entry)
            → (e.present ≡ true → from_pdpt e.frame virt written ≡ from_pdpt e.frame virt st)
            → pml4_value e virt written ≡ pml4_value e virt st
        pml4_same e h = elim (Bool-cases e.present) [ inl p ↦ rw p (h p) | inr p ↦ rw p refl ]
