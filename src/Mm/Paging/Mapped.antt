-- ===== src/Mm/Paging/Mapped.antt =====
-- `vmm_map_page`: the mapping it makes, and the others that it leaves.
use sirius_education.Common.{
  ℕ, ◌*◌, ◌/◌, ◌%◌, ◌^◌, ◌≤◌, ◌≡◌, ◌≢◌, refl, sym, ap, ◌∙◌, true, false, inl, inr, ne→==, arith,
}
use sirius_education.Common.Word.{page_size}
use sirius_education.Mm.Paging.{
  Entry, Vmm, pml4_index, pdpt_index, pd_index, pt_index, ensure, set_entry, set_page, flag,
  map_page, get_physical_address,
}
use sirius_education.Mm.Paging.Tree.{IsTree}
use sirius_education.Mm.Paging.Walk.{
  pt_value, from_pt, pd_value, from_pd, pdpt_value, from_pdpt, pml4_value, from_pml4,
  get_physical_address-eq,
}
use sirius_education.Mm.Paging.Written.{above_leaf, written_here, set_entry-IsTree, pml4_other}
use sirius_education.Mm.Paging.Ensured.{plenty, Ensured, ensure-Ensured}

pub same_page :
    (a b : ℕ)
    → pml4_index a ≡ pml4_index b
    → pdpt_index a ≡ pdpt_index b
    → pd_index a ≡ pd_index b
    → pt_index a ≡ pt_index b
    → a / 2 ^ 12 % 2 ^ 36 ≡ b / 2 ^ 12 % 2 ^ 36
same_page a b p q r s = omega (arith, p, q, r, s)

pub pml4_hit :
    (e : Entry) (u virt : ℕ) (w : Vmm)
    → e.present ≡ true
    → e.frame ≡ u
    → pml4_value e virt w ≡ from_pdpt u virt w
pml4_hit e u virt w p q = rw (p, q) refl

pub pdpt_hit :
    (e : Entry) (u virt : ℕ) (w : Vmm)
    → e.present ≡ true
    → e.frame ≡ u
    → pdpt_value e virt w ≡ from_pd u virt w
pdpt_hit e u virt w p q = rw (p, q) refl

pub pd_hit :
    (e : Entry) (u virt : ℕ) (w : Vmm)
    → e.present ≡ true
    → e.large ≡ false
    → e.frame ≡ u
    → pd_value e virt w ≡ from_pt u virt w
pd_hit e u virt w p l q = rw (p, l, q) refl

pub pt_hit : (e : Entry) (x : ℕ) → e.present ≡ true → e.frame ≡ x → pt_value e ≡ x * page_size
pt_hit e x p q = rw (p, q) refl

-- The first two steps of `vmm_map_page`: the page directory for the address.
abbrev pub pdpt_step : ℕ → ℕ → ℕ → Vmm → ℕ × Vmm
pdpt_step root virt flags st = ensure false (2 ^ 64) root (pml4_index virt) flags st

abbrev pub pd_step : ℕ → ℕ → ℕ → Vmm → ℕ × Vmm
pd_step root virt flags st =
    ensure false (2 ^ 36) ((pdpt_step root virt flags st).0 / page_size) (pdpt_index virt) flags
      (pdpt_step root virt flags st).1

-- The entry of that page directory for the address.
abbrev pub pd_entry : ℕ → ℕ → ℕ → Vmm → Entry
pd_entry root virt flags st =
    (pd_step root virt flags st).1.tables ((pd_step root virt flags st).0 / page_size)
      (pd_index virt)

-- The outcome `w` of mapping the page of `virt` to that of `phys`.
pub record Mapped (root virt phys : ℕ) (st w : Vmm) : Type 0 where
  pub level' : ℕ → ℕ
  pub parent' : ℕ → ℕ
  pub slot' : ℕ → ℕ
  pub tree : IsTree level' parent' slot' w
  pub top : level' root ≡ 4
  pub found : get_physical_address root virt w ≡ phys / page_size % 2 ^ 40 * page_size
  pub others :
      (a : ℕ)
      → a / 2 ^ 12 % 2 ^ 36 ≢ virt / 2 ^ 12 % 2 ^ 36
      → get_physical_address root a w ≡ get_physical_address root a st

module _ {level parent slot : ℕ → ℕ} {st : Vmm} (v : IsTree level parent slot st)
    (root virt phys flags : ℕ) (top : level root ≡ 4) (more : plenty 3 st.pmm ≡ true)
    (small : (pd_entry root virt flags st).present ≡ true
      → (pd_entry root virt flags st).large ≡ false) where
  abbrev s4 : ℕ × Vmm
  s4 = pdpt_step root virt flags st

  abbrev s3 : ℕ × Vmm
  s3 = pd_step root virt flags st

  abbrev t3 : ℕ
  t3 = s4.0 / page_size

  abbrev t2 : ℕ
  t2 = s3.0 / page_size

  r4 : Ensured level parent slot st root (pml4_index virt) 2 s4 × (plenty 2 s4.1.pmm ≡ true)
  r4 =
      ensure-Ensured v false root (pml4_index virt) 2 flags 2 top
        (λ e. absurd (omega (arith, e, top))) (2 ^ 64) (inr refl) more
        (λ p e. absurd (omega (arith, e, top)))

  r3 :
      Ensured r4.0.level' r4.0.parent' r4.0.slot' s4.1 t3 (pdpt_index virt) 1 s3
      × (plenty 1 s3.1.pmm ≡ true)
  r3 =
      ensure-Ensured r4.0.tree false t3 (pdpt_index virt) 1 flags 1 r4.0.below
        (λ e. absurd (omega (arith, e, r4.0.below))) (2 ^ 36) (inl refl) r4.1
        (λ p e. absurd (omega (arith, e, r4.0.below)))

  abbrev s2 : ℕ × Vmm
  s2 = ensure true (2 ^ 64) t2 (pd_index virt) flags s3.1

  abbrev t1 : ℕ
  t1 = s2.0 / page_size

  r2 :
      Ensured r3.0.level' r3.0.parent' r3.0.slot' s3.1 t2 (pd_index virt) 0 s2
      × (plenty 0 s2.1.pmm ≡ true)
  r2 =
      ensure-Ensured r3.0.tree true t2 (pd_index virt) 0 flags 0 r3.0.below (λ e. refl) (2 ^ 64)
        (inr refl) r3.1 (λ p e. small p)

  abbrev page_entry : Entry
  page_entry = record (s2.1.tables t1 (pt_index virt)) {
    present = true;
    writable = flag flags 1;
    user = flag flags 2;
    frame = phys / page_size % 2 ^ 40;
    no_execute = flag flags 63;
  }

  abbrev done : Vmm
  done = set_entry t1 (pt_index virt) page_entry s2.1

  map_page-eq : map_page root virt phys flags st ≡ done
  unfolding map_page set_page
  map_page-eq = refl

  leaf : r2.0.level' t1 ≡ 1
  leaf = r2.0.below

  top4 : r4.0.level' root ≡ 4
  top4 = (r4.0.kept root (λ z. omega (arith, z, top))).0 ∙ top

  top3 : r3.0.level' root ≡ 4
  top3 = (r3.0.kept root (λ z. omega (arith, z, top4))).0 ∙ top4

  top2 : r2.0.level' root ≡ 4
  top2 = (r2.0.kept root (λ z. omega (arith, z, top3))).0 ∙ top3

  t3_3 : r3.0.level' t3 ≡ 3
  t3_3 = (r3.0.kept t3 (λ z. omega (arith, z, r4.0.below))).0 ∙ r4.0.below

  t3_2 : r2.0.level' t3 ≡ 3
  t3_2 = (r2.0.kept t3 (λ z. omega (arith, z, t3_3))).0 ∙ t3_3

  t2_2 : r2.0.level' t2 ≡ 2
  t2_2 = (r2.0.kept t2 (λ z. omega (arith, z, r3.0.below))).0 ∙ r3.0.below

  last : (u j : ℕ) → 2 ≤ r2.0.level' u → done.tables u j ≡ s2.1.tables u j
  last = above_leaf r2.0.tree t1 (pt_index virt) page_entry leaf

  root_entry : done.tables root (pml4_index virt) ≡ s4.1.tables root (pml4_index virt)
  root_entry =
      last root (pml4_index virt) (omega (arith, top2))
      ∙ (r2.0.entries root (pml4_index virt) (λ z. omega (arith, z, top3))
            (ground (arith, ne→== root t2 (λ e. omega (arith, top3, r3.0.below, ap r3.0.level' e))))
          ∙ r3.0.entries root (pml4_index virt) (λ z. omega (arith, z, top4))
              (ground
                (arith, ne→== root t3 (λ e. omega (arith, top4, r4.0.below, ap r4.0.level' e)))))

  t3_entry : done.tables t3 (pdpt_index virt) ≡ s3.1.tables t3 (pdpt_index virt)
  t3_entry =
      last t3 (pdpt_index virt) (omega (arith, t3_2))
      ∙ r2.0.entries t3 (pdpt_index virt) (λ z. omega (arith, z, t3_3))
          (ground (arith, ne→== t3 t2 (λ e. omega (arith, t3_3, r3.0.below, ap r3.0.level' e))))

  t2_entry : done.tables t2 (pd_index virt) ≡ s2.1.tables t2 (pd_index virt)
  t2_entry = last t2 (pd_index virt) (omega (arith, t2_2))

  page_found : from_pml4 root virt done ≡ phys / page_size % 2 ^ 40 * page_size
  page_found =
      pml4_hit (done.tables root (pml4_index virt)) t3 virt done
        (ap (λ (e : Entry). e.present) root_entry ∙ r4.0.linked.0)
        (ap (λ (e : Entry). e.frame) root_entry ∙ r4.0.linked.1)
      ∙ (pdpt_hit (done.tables t3 (pdpt_index virt)) t2 virt done
            (ap (λ (e : Entry). e.present) t3_entry ∙ r3.0.linked.0)
            (ap (λ (e : Entry). e.frame) t3_entry ∙ r3.0.linked.1)
          ∙ (pd_hit (done.tables t2 (pd_index virt)) t1 virt done
                (ap (λ (e : Entry). e.present) t2_entry ∙ r2.0.linked.0)
                (ap (λ (e : Entry). e.large) t2_entry ∙ r2.0.linked.2 r3.0.below)
                (ap (λ (e : Entry). e.frame) t2_entry ∙ r2.0.linked.1)
              ∙ pt_hit (done.tables t1 (pt_index virt)) (phys / page_size % 2 ^ 40) here.0 here.1))
    where
      w : done.tables t1 (pt_index virt) ≡ page_entry
      w = written_here r2.0.tree t1 (pt_index virt) page_entry leaf

      here :
          ((done.tables t1 (pt_index virt)).present ≡ true)
          × ((done.tables t1 (pt_index virt)).frame ≡ phys / page_size % 2 ^ 40)
      here = (ap (λ (e : Entry). e.present) w, ap (λ (e : Entry). e.frame) w)

  others_kept :
      (a : ℕ)
      → a / 2 ^ 12 % 2 ^ 36 ≢ virt / 2 ^ 12 % 2 ^ 36
      → from_pml4 root a done ≡ get_physical_address root a st
  others_kept a ne =
      pml4_other r2.0.tree t1 (pt_index virt) page_entry leaf a root top2
        (λ e p4 p3 p2 p1. ne (same_page a virt (p4 ∙ slot4) (p3 ∙ slot3) (p2 ∙ r2.0.place) p1))
      ∙ (sym (get_physical_address-eq root a s2.1)
          ∙ (r2.0.lookups root a top3 ∙ (r3.0.lookups root a top4 ∙ r4.0.lookups root a top)))
    where
      up1 : r2.0.parent' t1 ≡ t2
      up1 = r2.0.above

      up2 : r2.0.parent' t2 ≡ t3
      up2 = (r2.0.kept t2 (λ z. omega (arith, z, r3.0.below))).1 ∙ r3.0.above

      slot3 : r2.0.slot' (r2.0.parent' t1) ≡ pdpt_index virt
      slot3 =
          ap r2.0.slot' up1 ∙ ((r2.0.kept t2 (λ z. omega (arith, z, r3.0.below))).2 ∙ r3.0.place)

      slot4 : r2.0.slot' (r2.0.parent' (r2.0.parent' t1)) ≡ pml4_index virt
      slot4 =
          ap (λ (u : ℕ). r2.0.slot' (r2.0.parent' u)) up1
          ∙ (ap r2.0.slot' up2
              ∙ ((r2.0.kept t3 (λ z. omega (arith, z, t3_3))).2
                  ∙ ((r3.0.kept t3 (λ z. omega (arith, z, r4.0.below))).2 ∙ r4.0.place)))

  -- In a tree of page tables with the root `root`, with memory below 64 GB, three frames to give out and no
  -- 2 MB page in the way: after the mapping of an address the lookup of the address answers the page of
  -- `phys`, the lookup of an address of any other page answers what it did before, and the tables are a
  -- tree again.
  pub map_page-Mapped : Mapped root virt phys st (map_page root virt phys flags st)
  map_page-Mapped = rw map_page-eq (record {
    level' = r2.0.level';
    parent' = r2.0.parent';
    slot' = r2.0.slot';
    tree = set_entry-IsTree r2.0.tree t1 (pt_index virt) page_entry leaf;
    top = top2;
    found = get_physical_address-eq root virt done ∙ page_found;
    others = λ a ne. get_physical_address-eq root a done ∙ others_kept a ne;
  })
