-- ===== src/Mm/Paging/Unmapped.antt =====
-- `vmm_unmap_page` of a page that is mapped.
use sirius_education.Common.{
  ℕ, suc, ◌*◌, ◌/◌, ◌%◌, ◌^◌, ◌<◌, ◌≤◌, ◌≡◌, ◌≢◌, refl, sym, ap, ◌∙◌, true, false, not, ◌&&◌, ◌==◌,
  ne→==, arith,
}
use sirius_education.Common.Word.{page_size}
use sirius_education.Mm.Pmm.{Pmm, free_page}
use sirius_education.Mm.Pmm.Alloc.{busy}
use sirius_education.Mm.Pmm.Release.{free_page-IsValid, busy-free_page}
use sirius_education.Mm.Paging.{
  Entry, Vmm, pml4_index, pdpt_index, pd_index, pt_index, set_entry, unmap_page,
  get_physical_address,
}
use sirius_education.Mm.Paging.Tree.{IsTree}
use sirius_education.Mm.Paging.Walk.{pt_value, from_pml4, get_physical_address-eq}
use sirius_education.Mm.Paging.Written.{above_leaf, written_here, set_entry-IsTree, pml4_other}
use sirius_education.Mm.Paging.Mapped.{same_page, pml4_hit, pdpt_hit, pd_hit}

-- The outcome `w` of unmapping the page of `virt`, which was mapped to the frame `f`.
pub record Unmapped (level parent slot : ℕ → ℕ) (root virt f : ℕ) (st w : Vmm) : Type 0 where
  pub tree : IsTree level parent slot w
  pub lost : get_physical_address root virt w ≡ 0
  pub others :
      (a : ℕ)
      → a / 2 ^ 12 % 2 ^ 36 ≢ virt / 2 ^ 12 % 2 ^ 36
      → get_physical_address root a w ≡ get_physical_address root a st
  pub given_back : (j : ℕ) → busy w.pmm j ≡ (not (f == j) && busy st.pmm j)

total-free_page : (p : Pmm) (phys : ℕ) → (free_page p phys).total_pages ≡ p.total_pages
unfolding free_page
total-free_page p phys = ground arith

module _ {level parent slot : ℕ → ℕ} {st : Vmm} (v : IsTree level parent slot st) (root virt : ℕ)
    (top : level root ≡ 4) where
  abbrev e4 : Entry
  e4 = st.tables root (pml4_index virt)

  abbrev e3 : Entry
  e3 = st.tables e4.frame (pdpt_index virt)

  abbrev e2 : Entry
  e2 = st.tables e3.frame (pd_index virt)

  abbrev pub leaf_entry : Entry
  leaf_entry = st.tables e2.frame (pt_index virt)

  -- The way down to the entry of a page of 4 KB.
  abbrev pub Reached : Type 0
  Reached =
      (e4.present ≡ true)
      × (e3.present ≡ true)
      × (e2.present ≡ true)
      × (e2.large ≡ false)
      × (leaf_entry.present ≡ true)

  module _ (way : Reached) (page : level leaf_entry.frame ≡ 0) (some_frame : 0 < leaf_entry.frame)
      (in_memory : leaf_entry.frame < st.pmm.total_pages) where
    abbrev f : ℕ
    f = leaf_entry.frame

    known3 :
        (suc (level e4.frame) ≡ level root)
        × (parent e4.frame ≡ root)
        × (slot e4.frame ≡ pml4_index virt)
    known3 =
        v.child root (pml4_index virt) (omega (arith, top)) way.0
          (λ e. absurd (omega (arith, e, top)))

    known2 :
        (suc (level e3.frame) ≡ level e4.frame)
        × (parent e3.frame ≡ e4.frame)
        × (slot e3.frame ≡ pdpt_index virt)
    known2 =
        v.child e4.frame (pdpt_index virt) (omega (arith, top, known3.0)) way.1
          (λ e. absurd (omega (arith, e, top, known3.0)))

    known1 :
        (suc (level e2.frame) ≡ level e3.frame)
        × (parent e2.frame ≡ e3.frame)
        × (slot e2.frame ≡ pd_index virt)
    known1 =
        v.child e3.frame (pd_index virt) (omega (arith, top, known3.0, known2.0)) way.2 (λ e. way.3)

    abbrev cleared : Entry
    cleared = record leaf_entry { present = false; frame = 0 }

    abbrev freed : Vmm
    freed = record st { pmm = free_page st.pmm (f * page_size) }

    freed-IsTree : IsTree level parent slot freed
    freed-IsTree = record {
      frames = free_page-IsValid st.pmm (f * page_size) v.frames;
      memory = rw (total-free_page st.pmm (f * page_size)) v.memory;
      taken = λ t n.
          busy-free_page st.pmm f t v.frames some_frame in_memory
          ∙ ground (arith, v.taken t n, ne→== f t (λ e. n (sym (ap level e) ∙ page)));
      small = v.small;
      child = v.child;
    }

    abbrev done : Vmm
    done = set_entry e2.frame (pt_index virt) cleared freed

    unmap_page-eq : unmap_page root virt st ≡ done
    unfolding unmap_page
    unmap_page-eq = rw (way.0, way.1, way.2, way.4) refl

    leaf : level e2.frame ≡ 1
    leaf = omega (arith, top, known3.0, known2.0, known1.0)

    last : (u j : ℕ) → 2 ≤ level u → done.tables u j ≡ st.tables u j
    last = above_leaf freed-IsTree e2.frame (pt_index virt) cleared leaf

    gone : from_pml4 root virt done ≡ 0
    gone =
        pml4_hit (done.tables root (pml4_index virt)) e4.frame virt done
          (ap (λ (e : Entry). e.present) w4 ∙ way.0) (ap (λ (e : Entry). e.frame) w4)
        ∙ (pdpt_hit (done.tables e4.frame (pdpt_index virt)) e3.frame virt done
              (ap (λ (e : Entry). e.present) w3 ∙ way.1) (ap (λ (e : Entry). e.frame) w3)
            ∙ (pd_hit (done.tables e3.frame (pd_index virt)) e2.frame virt done
                  (ap (λ (e : Entry). e.present) w2 ∙ way.2)
                  (ap (λ (e : Entry). e.large) w2 ∙ way.3) (ap (λ (e : Entry). e.frame) w2)
                ∙ ap pt_value (written_here freed-IsTree e2.frame (pt_index virt) cleared leaf)))
      where
        w4 : done.tables root (pml4_index virt) ≡ e4
        w4 = last root (pml4_index virt) (omega (arith, top))

        w3 : done.tables e4.frame (pdpt_index virt) ≡ e3
        w3 = last e4.frame (pdpt_index virt) (omega (arith, top, known3.0))

        w2 : done.tables e3.frame (pd_index virt) ≡ e2
        w2 = last e3.frame (pd_index virt) (omega (arith, top, known3.0, known2.0))

    others_kept :
        (a : ℕ)
        → a / 2 ^ 12 % 2 ^ 36 ≢ virt / 2 ^ 12 % 2 ^ 36
        → from_pml4 root a done ≡ from_pml4 root a freed
    others_kept a ne =
        pml4_other freed-IsTree e2.frame (pt_index virt) cleared leaf a root top
          (λ e p4 p3 p2 p1. ne (same_page a virt (p4 ∙ slot4) (p3 ∙ slot3) (p2 ∙ known1.2) p1))
      where
        slot3 : slot (parent e2.frame) ≡ pdpt_index virt
        slot3 = ap slot known1.1 ∙ known2.2

        slot4 : slot (parent (parent e2.frame)) ≡ pml4_index virt
        slot4 = ap (λ (u : ℕ). slot (parent u)) known1.1 ∙ (ap slot known2.1 ∙ known3.2)

    -- In a tree of page tables with the root `root`, for an address whose entry is reached and points to a
    -- frame of the memory that is not frame 0 and no table: after the unmapping the lookup of the address
    -- answers 0, the lookup of an address of any other page answers what it did before, exactly this frame
    -- is given back to the allocator, and the tables are a tree as before.
    pub unmap_page-Unmapped : Unmapped level parent slot root virt f st (unmap_page root virt st)
    unmap_page-Unmapped = rw unmap_page-eq (record {
      tree = set_entry-IsTree freed-IsTree e2.frame (pt_index virt) cleared leaf;
      lost = get_physical_address-eq root virt done ∙ gone;
      others = λ a ne.
          get_physical_address-eq root a done
          ∙ (others_kept a ne ∙ sym (get_physical_address-eq root a st));
      given_back = λ j. busy-free_page st.pmm f j v.frames some_frame in_memory;
    })
