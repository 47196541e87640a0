-- ===== src/Mm/Paging/Ensured.antt =====
-- A step of `vmm_map_page` on its way down: the table of the level below is there afterwards.
use sirius_education.Common.{
  ℕ, zero, suc, ◌*◌, ◌/◌, ◌%◌, ◌^◌, ◌<◌, ◌≡◌, ◌≢◌, refl, sym, ap, ◌∙◌, Bool, true, false, not, ◌&&◌,
  ◌⊎◌, inl, inr, ◌==◌, ==-refl, ==→ne, ne→==, Bool-cases, arith,
}
use sirius_education.Common.Word.{page_size}
use sirius_education.Mm.Pmm.{Pmm, alloc_page}
use sirius_education.Mm.Paging.{Vmm, new_table, ensure, get_physical_address}
use sirius_education.Mm.Paging.Tree.{
  IsTree, update, grown_entry, grown_here, grown_pmm, fresh_zero, new_table-IsTree,
}
use sirius_education.Mm.Paging.Walk.{new_table-keeps}

-- The allocator has at least that many frames to give out, one after the other.
unfoldable pub plenty : ℕ → Pmm → Bool
plenty zero p = true
plenty (suc n) p = not ((alloc_page p).0 == 0) && plenty n (alloc_page p).1

pub plenty-less : (n : ℕ) (p : Pmm) → plenty (suc n) p ≡ true → plenty n p ≡ true
unfolding plenty
plenty-less zero p h = refl
plenty-less (suc n) p h = ground (arith, h, plenty-less n (alloc_page p).1)

plenty-now : (n : ℕ) (p : Pmm) → plenty (suc n) p ≡ true → (alloc_page p).0 ≢ 0
unfolding plenty
plenty-now n p h = ==→ne (alloc_page p).0 0 (ground (arith, h))

plenty-next : (n : ℕ) (p : Pmm) → plenty (suc n) p ≡ true → plenty n (alloc_page p).1 ≡ true
unfolding plenty
plenty-next n p h = ground (arith, h)

-- The outcome `r` of the step for the entry `i` of the table `t`, in a tree.
pub record Ensured (level parent slot : ℕ → ℕ) (st : Vmm) (t i k : ℕ) (r : ℕ × Vmm) : Type 0 where
  pub level' : ℕ → ℕ
  pub parent' : ℕ → ℕ
  pub slot' : ℕ → ℕ
  pub tree : IsTree level' parent' slot' r.1
  pub below : level' (r.0 / page_size) ≡ suc k
  pub above : parent' (r.0 / page_size) ≡ t
  pub place : slot' (r.0 / page_size) ≡ i
  pub linked :
      ((r.1.tables t i).present ≡ true)
      × ((r.1.tables t i).frame ≡ r.0 / page_size)
      × (level t ≡ 2 → (r.1.tables t i).large ≡ false)
  pub kept :
      (u : ℕ) → level u ≢ 0 → (level' u ≡ level u) × (parent' u ≡ parent u) × (slot' u ≡ slot u)
  pub entries :
      (u j : ℕ) → level u ≢ 0 → ((u == t) && (j == i)) ≡ false → r.1.tables u j ≡ st.tables u j
  pub lookups :
      (root virt : ℕ)
      → level root ≡ 4
      → get_physical_address root virt r.1 ≡ get_physical_address root virt st

module _ {level parent slot : ℕ → ℕ} {st : Vmm} (v : IsTree level parent slot st) (is_pd : Bool)
    (t i k flags n : ℕ) (deep : level t ≡ suc (suc k)) (flat : level t ≡ 2 → is_pd ≡ true) where
  new_table-Ensured :
      (alloc_page st.pmm).0 ≢ 0
      → (st.tables t i).present ≡ false
      → Ensured level parent slot st t i k (new_table is_pd t i flags st)
  new_table-Ensured enough absent = record {
    level' = update level at (suc k);
    parent' = update parent at t;
    slot' = update slot at i;
    tree = new_table-IsTree v is_pd t i k flags deep enough absent flat;
    below = ap (update level at (suc k)) next ∙ rw (==-refl at) refl;
    above = ap (update parent at t) next ∙ rw (==-refl at) refl;
    place = ap (update slot at i) next ∙ rw (==-refl at) refl;
    linked = (step.0, step.1 ∙ sym next, step.2);
    kept = λ u n. others u (zero_at u n);
    entries = grown_entry v is_pd t i k flags deep enough absent flat;
    lookups =
        λ root virt top. new_table-keeps v is_pd t i k flags deep enough absent flat root virt top;
  }
    where
      at : ℕ
      at = (alloc_page st.pmm).0 / page_size

      next : (new_table is_pd t i flags st).0 / page_size ≡ at
      next = unfold new_table in refl

      step :
          (((new_table is_pd t i flags st).1.tables t i).present ≡ true)
          × (((new_table is_pd t i flags st).1.tables t i).frame ≡ at)
          × (level t ≡ 2 → ((new_table is_pd t i flags st).1.tables t i).large ≡ false)
      step = grown_here v is_pd t i k flags deep enough absent flat

      zero_at : (u : ℕ) → level u ≢ 0 → (at == u) ≡ false
      zero_at u n =
          ne→== at u
            (λ e. n (ap level (sym e) ∙ fresh_zero v is_pd t i k flags deep enough absent flat))

      others :
          (u : ℕ)
          → (at == u) ≡ false
          → (update level at (suc k) u ≡ level u)
            × (update parent at t u ≡ parent u)
            × (update slot at i u ≡ slot u)
      others u h = rw h (refl, refl, refl)

  present-Ensured :
      (limit : ℕ)
      → (limit ≡ 2 ^ 36) ⊎ (limit ≡ 2 ^ 64)
      → (st.tables t i).present ≡ true
      → (level t ≡ 2 → (st.tables t i).large ≡ false)
      → Ensured level parent slot st t i k ((st.tables t i).frame * page_size % limit, st)
  present-Ensured limit wide here small = record {
    level' = level;
    parent' = parent;
    slot' = slot;
    tree = v;
    below = ap level back ∙ omega (arith, deep, known.0);
    above = ap parent back ∙ known.1;
    place = ap slot back ∙ known.2;
    linked = (here, sym back, small);
    kept = λ u n. (refl, refl, refl);
    entries = λ u j n o. refl;
    lookups = λ root virt top. refl;
  }
    where
      known :
          (suc (level (st.tables t i).frame) ≡ level t)
          × (parent (st.tables t i).frame ≡ t)
          × (slot (st.tables t i).frame ≡ i)
      known = v.child t i (omega (arith, deep)) here small

      low : (st.tables t i).frame < 2 ^ 24
      low = v.small (st.tables t i).frame (omega (arith, deep, known.0))

      back : (st.tables t i).frame * page_size % limit / page_size ≡ (st.tables t i).frame
      back = elim wide [ inl e ↦ rw e (omega (arith, low)) | inr e ↦ rw e (omega (arith, low)) ]

  -- With memory left the step succeeds, unless it meets a large page.
  pub ensure-Ensured :
      (limit : ℕ)
      → (limit ≡ 2 ^ 36) ⊎ (limit ≡ 2 ^ 64)
      → plenty (suc n) st.pmm ≡ true
      → ((st.tables t i).present ≡ true → level t ≡ 2 → (st.tables t i).large ≡ false)
      → Ensured level parent slot st t i k (ensure is_pd limit t i flags st)
        × (plenty n (ensure is_pd limit t i flags st).1.pmm ≡ true)
  unfolding ensure
  ensure-Ensured limit wide more small = elim (Bool-cases (st.tables t i).present) [
    | inl here ↦ rw here (present-Ensured limit wide here (small here), plenty-less n st.pmm more)
    | inr absent ↦ rw absent (new_table-Ensured (got more) absent, later absent more)
  ]
    where
      got : plenty (suc n) st.pmm ≡ true → (alloc_page st.pmm).0 ≢ 0
      got h = plenty-now n st.pmm h

      later :
          (st.tables t i).present ≡ false
          → plenty (suc n) st.pmm ≡ true
          → plenty n (new_table is_pd t i flags st).1.pmm ≡ true
      later absent h =
          rw (grown_pmm v is_pd t i k flags deep (got h) absent flat) (plenty-next n st.pmm h)
