-- ===== src/Ipc/Get.antt =====
-- `sys_shm_get` and the place of a new segment in the table.
use sirius_education.Common.{
  ℕ, ◌+◌, ◌<◌, ◌≢◌, length, get_or, ◌≡◌, Bool, true, Option, none, some, ◌⊎◌, List, ◌==◌, false,
  ◌/◌, if◌then◌else◌,
}
use sirius_education.Common.Ints.{ℤ, pos, negsuc}
use sirius_education.Common.Word.{page_size}
use sirius_education.Mm.Pmm.{alloc_page}
use sirius_education.Mm.Paging.{Vmm, clear_table}
use sirius_education.Ipc.{Segment, Shm, find, empty}
use sirius_education.Ipc.Count.{uses, copies, refs, IsValid}

-- The table with a new segment in a free slot.
abbrev Placed : Segment → ℕ → List Segment → Option (List Segment) → Type 0
Placed new q ss none = ss ≡ ss
Placed new q ss (some r) =
    (copies q r ≡ (if new.id == q then copies q ss + 1 else copies q ss))
    × (refs q r ≡ (if new.id == q then new.ref_count + refs q ss else refs q ss))

-- Every place of the table has a segment.
abbrev pub AllActive : List Segment → Type 0
AllActive ss = (i : ℕ) → i < length ss → (get_or ss i empty).is_active ≡ true

-- The search for `q` after the placing: the new segment for its id, and what it was for another.
abbrev Stored : Segment → ℕ → List Segment → Option (List Segment) → Type 0
Stored new q ss none = AllActive ss
Stored new q ss (some t) =
    copies new.id ss ≡ 0 → find q t ≡ (if new.id == q then some new else find q ss)

-- The memory after the frame of a new segment is taken and filled with 0.
abbrev pub cleared : Shm → Vmm
cleared m =
    clear_table ((alloc_page m.vmm.pmm).0 / page_size)
      (record m.vmm { pmm = (alloc_page m.vmm.pmm).1 })

-- A new segment with the next id in the table, and all others as they were.
pub record Created (key : ℕ) (create : Bool) (m : Shm) (held : List ℕ) (id : ℕ) (m' : Shm)
    : Type 0 where
  pub missing : find key m.table ≡ none
  pub asked : create ≡ true
  pub next : id ≡ m.next_id
  pub unheld : uses id held ≡ 0
  pub framed : (alloc_page m.vmm.pmm).0 ≢ 0
  pub stored :
      find id m'.table
      ≡ some (record {
        id = id;
        phys_frame = (alloc_page m.vmm.pmm).0;
        ref_count = 0;
        is_active = true;
      })
  pub others : (q : ℕ) → q ≢ id → find q m'.table ≡ find q m.table
  pub counter : m'.next_id ≡ m.next_id + 1
  pub memory : m'.vmm ≡ cleared m

-- What `sys_shm_get` may answer.
abbrev pub Got : ℕ → Bool → Shm → List ℕ → ℤ × Shm → Type 0
Got key create m held (negsuc n, m') =
    IsValid m' held
    × (n ≡ 0)
    × (m'.table ≡ m.table)
    × (find key m.table ≡ none)
    × ((create ≡ false) ⊎ AllActive m.table ⊎ ((alloc_page m.vmm.pmm).0 ≡ 0))
Got key create m held (pos id, m') =
    IsValid m' held × (((id ≡ key) × (m' ≡ m)) ⊎ Created key create m held id m')
