-- ===== src/Mm/Paging/Tree.antt =====
-- The tables of an address space as a tree, and what a new table does to it.
use mathlib.Core.Path.{subst}
use sirius_education.Common.{
  ℕ, suc, ◌*◌, ◌/◌, ◌^◌, ◌<◌, ◌≤◌, ◌≡◌, ◌≢◌, refl, sym, ap, ◌∙◌, Bool, true, false, ◌&&◌, inl, inr,
  ◌==◌, ==_iff, ==-refl, ne→==, Bool-cases, arith, if◌then◌else◌,
}
use sirius_education.Common.Word.{page_size}
use sirius_education.Mm.Bitmap.Laws.{is_set-set_bit}
use sirius_education.Mm.Pmm.{Pmm, alloc_page}
use sirius_education.Mm.Pmm.Alloc.{
  busy, TakesLowest, alloc_page-TakesLowest, alloc_page-IsValid, IsValid,
}
use sirius_education.Mm.Paging.{Entry, Vmm, new_table}

-- A frame that the allocator gives out: it was free and is taken now.
pub record Fresh (p : Pmm) (r : ℕ × Pmm) : Type 0 where
  pub was_free : busy p (r.0 / page_size) ≡ false
  pub now_busy : busy r.1 (r.0 / page_size) ≡ true
  pub others : (j : ℕ) → busy p j ≡ true → busy r.1 j ≡ true
  pub aligned : r.0 ≡ r.0 / page_size * page_size
  pub in_memory : r.0 / page_size < p.total_pages
  pub same_total : r.1.total_pages ≡ p.total_pages

lowest-Fresh : (p : Pmm) (r : ℕ × Pmm) → IsValid p → TakesLowest p r → r.0 ≢ 0 → Fresh p r
lowest-Fresh p (phys, q) v (inl (all, z, same)) ne = absurd (ne z)
lowest-Fresh p (phys, q) v (inr (i, lt, free, below, at, now)) ne = record {
  was_free = ground (arith, page, free);
  now_busy =
      rw (now, page)
        (is_set-set_bit 8 (omega arith) p.bitmap i i (omega (arith, lt, v.covered, v.sized))
          ∙ rw (==-refl i) refl);
  others = λ j b. rw now (
      is_set-set_bit 8 (omega arith) p.bitmap i j (omega (arith, lt, v.covered, v.sized))
      ∙ ground (arith, b));
  aligned = rw page at;
  in_memory = rw page lt;
  same_total = ap (λ (x : Pmm). x.total_pages) now;
}
  where
    page : phys / page_size ≡ i
    page = omega (arith, at)

alloc_page-Fresh : (p : Pmm) → IsValid p → (alloc_page p).0 ≢ 0 → Fresh p (alloc_page p)
alloc_page-Fresh p v ne = lowest-Fresh p (alloc_page p) v (alloc_page-TakesLowest p v) ne

-- `level` is 4 for a PML4 and 1 for a page table, 0 for a frame that is no table; `parent` and `slot` tell
-- the entry that points to a table.
pub record IsTree (level parent slot : ℕ → ℕ) (st : Vmm) : Type 0 where
  pub frames : IsValid st.pmm
  pub memory : st.pmm.total_pages ≤ 2 ^ 24
  pub taken : (t : ℕ) → level t ≢ 0 → busy st.pmm t ≡ true
  pub small : (t : ℕ) → level t ≢ 0 → t < 2 ^ 24
  pub child :
      (t i : ℕ)
      → 2 ≤ level t
      → (st.tables t i).present ≡ true
      → (level t ≡ 2 → (st.tables t i).large ≡ false)
      → (suc (level (st.tables t i).frame) ≡ level t)
        × (parent (st.tables t i).frame ≡ t)
        × (slot (st.tables t i).frame ≡ i)

abbrev pub update : (ℕ → ℕ) → ℕ → ℕ → ℕ → ℕ
update f i a j = if i == j then a else f j

module _ {level parent slot : ℕ → ℕ} {st : Vmm} (v : IsTree level parent slot st) (is_pd : Bool)
    (t i k flags : ℕ) (deep : level t ≡ suc (suc k)) (enough : (alloc_page st.pmm).0 ≢ 0)
    (absent : (st.tables t i).present ≡ false) (flat : level t ≡ 2 → is_pd ≡ true) where
  abbrev pub fresh : ℕ
  fresh = (alloc_page st.pmm).0 / page_size

  f : Fresh st.pmm (alloc_page st.pmm)
  f = alloc_page-Fresh st.pmm v.frames enough

  abbrev pub grown : Vmm
  grown = (new_table is_pd t i flags st).1

  pub fresh_zero : level fresh ≡ 0
  fresh_zero = ground (arith, v.taken fresh, f.was_free)

  apart : (u : ℕ) → level u ≢ 0 → (u == fresh) ≡ false
  apart u n = ne→== u fresh (λ e. n (ap level e ∙ fresh_zero))

  pub grown_entry :
      (u j : ℕ) → level u ≢ 0 → ((u == t) && (j == i)) ≡ false → grown.tables u j ≡ st.tables u j
  unfolding new_table
  grown_entry u j n o = rw (o, apart u n) refl

  pub grown_here :
      ((grown.tables t i).present ≡ true)
      × ((grown.tables t i).frame ≡ fresh)
      × (level t ≡ 2 → (grown.tables t i).large ≡ false)
  unfolding new_table
  grown_here =
      rw (==-refl t, ==-refl i)
        (refl, omega (arith, f.in_memory, v.memory), λ two. rw (flat two) refl)

  pub grown_empty : (j : ℕ) → (grown.tables fresh j).present ≡ false
  unfolding new_table
  grown_empty j = rw (apart', ==-refl fresh) refl
    where
      apart' : (fresh == t) ≡ false
      apart' = ne→== fresh t (λ e. omega (arith, ap level e, fresh_zero, deep))

  pub grown_pmm : grown.pmm ≡ (alloc_page st.pmm).1
  unfolding new_table
  grown_pmm = refl

  abbrev level' : ℕ → ℕ
  level' = update level fresh (suc k)

  pub level_kept : (u : ℕ) → level u ≢ 0 → level' u ≡ level u
  level_kept u n = ground (arith, apart u n)

  arrived :
      (x u j : ℕ)
      → x ≡ fresh
      → (u == t) && (j == i) ≡ true
      → (fresh == u) ≡ false
      → (suc (level' x) ≡ level' u) × (update parent fresh t x ≡ u) × (update slot fresh i x ≡ j)
  arrived x u j e h old = ground (arith, e, h, old, ==-refl fresh, deep)

  stayed :
      (x u j : ℕ)
      → (suc (level x) ≡ level u) × (parent x ≡ u) × (slot x ≡ j)
      → 2 ≤ level u
      → (suc (level' x) ≡ level' u) × (update parent fresh t x ≡ u) × (update slot fresh i x ≡ j)
  stayed x u j (a, b, c) l =
      ground (arith, a, b, c, l, apart x (omega (arith, a, l)), apart u (omega (arith, l)))

  landed : (u j : ℕ) → (u == t) && (j == i) ≡ true → (grown.tables u j).frame ≡ fresh
  landed u j h =
      ap (λ (x : ℕ). (grown.tables x j).frame) ((==_iff u t).0 (ground (arith, h)))
      ∙ ap (λ (x : ℕ). (grown.tables t x).frame) ((==_iff j i).0 (ground (arith, h)))
      ∙ grown_here.1

  stayed' :
      (u j : ℕ)
      → (u == t) && (j == i) ≡ false
      → (fresh == u) ≡ false
      → 2 ≤ level' u
      → (grown.tables u j).present ≡ true
      → (level' u ≡ 2 → (grown.tables u j).large ≡ false)
      → (suc (level' (grown.tables u j).frame) ≡ level' u)
        × (update parent fresh t (grown.tables u j).frame ≡ u)
        × (update slot fresh i (grown.tables u j).frame ≡ j)
  stayed' u j there old l p g = stayed (grown.tables u j).frame u j from l'
    where
      l' : 2 ≤ level u
      l' = ground (arith, l, old)

      same : grown.tables u j ≡ st.tables u j
      same = grown_entry u j (omega (arith, l')) there

      from :
          (suc (level (grown.tables u j).frame) ≡ level u)
          × (parent (grown.tables u j).frame ≡ u)
          × (slot (grown.tables u j).frame ≡ j)
      from =
          subst
            (λ (e : Entry).
              (suc (level e.frame) ≡ level u) × (parent e.frame ≡ u) × (slot e.frame ≡ j))
            (sym same)
            (v.child u j l' (ap (λ (e : Entry). e.present) (sym same) ∙ p) (λ two.
              ap (λ (e : Entry). e.large) (sym same) ∙ g (level_kept u (omega (arith, l')) ∙ two)))

  grown_child :
      (u j : ℕ)
      → 2 ≤ level' u
      → (grown.tables u j).present ≡ true
      → (level' u ≡ 2 → (grown.tables u j).large ≡ false)
      → (suc (level' (grown.tables u j).frame) ≡ level' u)
        × (update parent fresh t (grown.tables u j).frame ≡ u)
        × (update slot fresh i (grown.tables u j).frame ≡ j)
  grown_child u j l p g = elim (Bool-cases (fresh == u)) [
    | inl new ↦ absurd (
        ground (
          arith,
          p,
          ap (λ (x : ℕ). (grown.tables x j).present) (sym ((==_iff fresh u).0 new)),
          grown_empty j,
        ))
    | inr old ↦ elim (Bool-cases ((u == t) && (j == i))) [
      | inl here ↦ arrived (grown.tables u j).frame u j (landed u j here) here old
      | inr there ↦ stayed' u j there old l p g
    ]
  ]

  pub new_table-IsTree :
      IsTree (update level fresh (suc k)) (update parent fresh t) (update slot fresh i) grown
  new_table-IsTree = record {
    frames = rw grown_pmm (alloc_page-IsValid st.pmm v.frames);
    memory = rw (grown_pmm, f.same_total) v.memory;
    taken = λ u n. rw grown_pmm (elim (Bool-cases (fresh == u)) [
      | inl new ↦ rw (sym ((==_iff fresh u).0 new)) f.now_busy
      | inr old ↦ f.others u (v.taken u (ground (arith, n, old)))
    ]);
    small = λ u n. ground (arith, n, v.small u, f.in_memory, v.memory);
    child = grown_child;
  }
