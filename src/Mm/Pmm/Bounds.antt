-- ===== src/Mm/Pmm/Bounds.antt =====
-- What the operations of pmm.c leave alone.
use sirius_education.Common.{ℕ, ◌≤◌, ◌≡◌}
use sirius_education.Mm.Pmm.{Pmm}
use sirius_education.Mm.Pmm.Alloc.{IsValid, busy}

-- What an operation may not touch: the bits past the last page.
pub record Within (p q : Pmm) : Type 0 where
  pub valid : IsValid q
  pub total : q.total_pages ≡ p.total_pages
  pub beyond : (j : ℕ) → p.total_pages ≤ j → busy q j ≡ busy p j
