-- ===== src/Ipc.antt =====
-- The communication between processes: shared memory (kernel/kernel/ipc/shm.c), the clean-up of a dead
-- process (process_ipc_clean.c) and signals (signal.c). The frames and the page tables are those of Mm/Paging.
pub mod Count
pub mod Get
pub mod Signals
use sirius_education.Common.{
  ℕ, zero, suc, ◌+◌, ◌-◌, ◌*◌, ◌/◌, ◌%◌, ◌^◌, Bool, true, false, ◌&&◌, not, Option, none, some,
  List, [], ◌∷◌, ◌++◌, set, get_or, length, replicate, ltb, leb, ◌==◌, if◌then◌else◌,
}
use sirius_education.Common.Ints.{ℤ, pos, negsuc}
use sirius_education.Common.Word.{page_size}
use sirius_education.Mm.Pmm.{alloc_page, free_page}
use sirius_education.Mm.Paging.{Vmm, clear_table, map_page}
use mathlib.Core.Option
use Prim.Native.Nat.{bit_or}

-- `MAX_SHM_SEGMENTS`
abbrev pub max_segments : ℕ
max_segments = 16

-- `MAX_SHARED_REGIONS`
abbrev pub max_regions : ℕ
max_regions = 8

-- `USER_SHM_BASE`
abbrev pub user_shm_base : ℕ
user_shm_base = 0x8000000

-- `shm_segment_t`; an id is the 32-bit pattern of an `int`, and so is a key.
pub record Segment : Type 0 where
  pub id : ℕ
  pub phys_frame : ℕ
  pub ref_count : ℕ
  pub is_active : Bool

abbrev pub empty : Segment
empty = record { id = 0; phys_frame = 0; ref_count = 0; is_active = false }

-- `g_shm_table` and `g_next_shm_id`, with the frames and the page tables
pub record Shm : Type 0 where
  pub table : List Segment
  pub next_id : ℕ
  pub vmm : Vmm

-- The static state before the first call.
abbrev pub cold : Vmm → Shm
cold v = record { table = replicate max_segments empty; next_id = 1; vmm = v }

-- `g_shm_table[i].is_active && g_shm_table[i].id == id`
abbrev pub matches : ℕ → Segment → Bool
matches id s = s.is_active && (s.id == id)

-- The search by id, which `sys_shm_get`, `sys_shm_at` and `detach_shm_segment` share.
unfoldable pub find : ℕ → List Segment → Option Segment
find id [] = none
find id (s ∷ ss) = let rest = find id ss in if matches id s then some s else rest

-- A segment in the first slot that is not active; `none` when there is no such slot.
unfoldable pub place : Segment → List Segment → Option (List Segment)
place new [] = none
place new (s ∷ ss) =
    let rest = place new ss in
    if not s.is_active then some (new ∷ ss) else Option.map (λ (r : List Segment). s ∷ r) rest

-- `sys_shm_get` with `create` for `flags & SHM_CREAT`; the frame is asked for only if there is a slot,
-- and filled with 0.
unfoldable pub shm_get : ℕ → Bool → Shm → ℤ × Shm
shm_get key create m = elim (find key m.table) [
  | some s ↦ (pos s.id, m)
  | none ↦
      let (phys, pmm') = alloc_page m.vmm.pmm in
      let vmm' = record m.vmm { pmm = pmm' } in
      let new : Segment = record {
        id = m.next_id;
        phys_frame = phys;
        ref_count = 0;
        is_active = true;
      } in
      if not create then (negsuc 0, m) else elim (place new m.table) [
        | none ↦ (negsuc 0, m)
        | some t ↦ if phys == 0 then (negsuc 0, record m { vmm = vmm' }) else (
          pos m.next_id,
          record {
            table = t;
            next_id = (m.next_id + 1) % 2 ^ 32;
            vmm = clear_table (phys / page_size) vmm';
          },
        )
      ]
]

-- The fields of the PCB: `shm_ids`, `shm_virtual_addresses`, `pending_signals` and `cr3`.
pub record Process : Type 0 where
  pub shm_ids : List ℕ
  pub shm_virtual_addresses : List ℕ
  pub pending_signals : ℕ
  pub cr3 : ℕ

-- The first slot of `shm_ids` that is 0.
unfoldable pub free_slot : List ℕ → Option ℕ
free_slot [] = none
free_slot (x ∷ xs) = let rest = free_slot xs in if x == 0 then some 0 else Option.map suc rest

-- `seg->ref_count++` on the segment that the search found.
unfoldable pub attach : ℕ → List Segment → List Segment
attach id [] = []
attach id (s ∷ ss) =
    let rest = attach id ss in
    if matches id s then record s { ref_count = s.ref_count + 1 } ∷ ss else s ∷ rest

-- `sys_shm_at`: the address, `none` for (void*)-1.
unfoldable pub shm_at : ℕ → Process → Shm → Option ℕ × Process × Shm
shm_at shmid proc m = elim (find shmid m.table) [
  | none ↦ (none, proc, m)
  | some s ↦ elim (free_slot proc.shm_ids) [
    | none ↦ (none, proc, m)
    | some slot ↦
        let virt_addr : ℕ = user_shm_base + slot * page_size in
        (
          some virt_addr,
          record proc {
            shm_ids = set proc.shm_ids slot shmid;
            shm_virtual_addresses = set proc.shm_virtual_addresses slot virt_addr;
          },
          record m {
            table = attach shmid m.table;
            vmm = map_page (proc.cr3 / page_size) virt_addr s.phys_frame 0x6 m.vmm;
          },
        )
  ]
]

-- The loop of `detach_shm_segment`; with the frame that it frees.
unfoldable pub detach : ℕ → List Segment → List Segment × Option ℕ
detach id [] = ([], none)
detach id (s ∷ ss) =
    let rest = detach id ss in
    if matches id s
    then (if leb (s.ref_count - 1) 0
        then (empty ∷ ss, some s.phys_frame)
        else (record s { ref_count = s.ref_count - 1 } ∷ ss, none))
    else (s ∷ rest.0, rest.1)

-- `detach_shm_segment`
unfoldable pub detach_segment : ℕ → Shm → Shm
unfolding detach
detach_segment shmid m = record m {
  table = (detach shmid m.table).0;
  vmm = elim (detach shmid m.table).1 [
    | none ↦ m.vmm
    | some frame ↦ record m.vmm { pmm = free_page m.vmm.pmm frame }
  ];
}

-- The loop of `process_ipc_cleanup` over the slots.
unfoldable pub detach_all : List ℕ → Shm → Shm
unfolding detach_segment
detach_all [] m = m
detach_all (id ∷ ids) m = detach_all ids (if id == 0 then m else detach_segment id m)

-- The addresses of the slots that were in use become NULL.
unfoldable pub clear : List ℕ → List ℕ → List ℕ
clear [] addresses = addresses
clear (id ∷ ids) [] = []
clear (id ∷ ids) (a ∷ addresses) =
    let rest = clear ids addresses in (if id == 0 then a else 0) ∷ rest

-- `process_ipc_cleanup`
unfoldable pub ipc_cleanup : Process → Shm → Process × Shm
unfolding detach_all clear
ipc_cleanup proc m = (
  record proc {
    shm_ids = replicate (length proc.shm_ids) 0;
    shm_virtual_addresses = clear proc.shm_ids proc.shm_virtual_addresses;
  },
  detach_all proc.shm_ids m,
)

-- What `sys_kill` answers: -1, the end of the target, or 0 with the target marked.
pub data Killed : Type 0 where
  refused : Killed
  terminated : Killed
  signalled : Process → Killed

-- `sys_kill` of the process that the scheduler found, `sig` not negative
unfoldable pub kill : Option Process → ℕ → Killed
kill target sig = if leb 32 sig then Killed.refused else elim target [
  | none ↦ Killed.refused
  | some p ↦
      if sig == 9
      then Killed.terminated
      else Killed.signalled (record p { pending_signals = bit_or p.pending_signals (2 ^ sig) })
]
