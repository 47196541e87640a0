-- ===== src/Ipc/Count.antt =====
-- The reference counts of the segments against the attachments that the processes hold.
use mathlib.Core.Path.{subst}
use mathlib.Core.Option
use sirius_education.Common.{
  ℕ, zero, suc, ◌+◌, ◌-◌, ◌*◌, ◌/◌, ◌≤◌, ◌<◌, ◌≡◌, ◌≢◌, refl, sym, ◌∙◌, true, false, Option, none,
  some, inl, inr, ◌⊎◌, List, [], ◌∷◌, ◌++◌, set, get_or, length, replicate, leb, ◌==◌, ==_iff,
  ==→ne, ne→==, Bool-cases, Option-cases, arith, if◌then◌else◌,
}
use sirius_education.Common.Word.{page_size}
use sirius_education.Mm.Pmm.{free_page}
use sirius_education.Mm.Paging.{Vmm, map_page}
use sirius_education.Ipc.{
  Segment, Shm, Process, matches, find, free_slot, attach, shm_at, detach, detach_segment,
  detach_all, ipc_cleanup, user_shm_base,
}

-- How often an id stands in a list of attachments.
unfoldable pub uses : ℕ → List ℕ → ℕ
uses q [] = 0
uses q (x ∷ xs) = if x == q then uses q xs + 1 else uses q xs

-- The active segments of an id, and the references they count.
unfoldable pub copies : ℕ → List Segment → ℕ
copies q [] = 0
copies q (s ∷ ss) = if matches q s then copies q ss + 1 else copies q ss

unfoldable pub refs : ℕ → List Segment → ℕ
refs q [] = 0
refs q (s ∷ ss) = if matches q s then s.ref_count + refs q ss else refs q ss

-- Ids are unique and below the next one, and each segment counts the attachments of its id.
pub record IsValid (m : Shm) (held : List ℕ) : Type 0 where
  pub once : (q : ℕ) → copies q m.table ≤ 1
  pub counted : (q : ℕ) → q ≢ 0 → refs q m.table ≡ uses q held
  pub fresh : (q : ℕ) → m.next_id ≤ q → copies q m.table ≡ 0
  pub started : 0 < m.next_id

pub copies-refs : (q : ℕ) (ss : List Segment) → copies q ss ≡ 0 → refs q ss ≡ 0
unfolding copies refs
copies-refs q [] n = refl
copies-refs q (s ∷ ss) n = ground (arith, n, copies-refs q ss)

find-copies : (q : ℕ) (ss : List Segment) (s : Segment) → find q ss ≡ some s → 0 < copies q ss
unfolding find copies
find-copies q [] s e = cc
find-copies q (x ∷ xs) s e = ground (arith, e, find-copies q xs s)

find-none : (q : ℕ) (ss : List Segment) → find q ss ≡ none → copies q ss ≡ 0
unfolding find copies
find-none q [] e = refl
find-none q (x ∷ xs) e = ground (arith, e, find-none q xs)

attach_lem :
    (id q : ℕ) (ss : List Segment)
    → (copies q (attach id ss) ≡ copies q ss)
      × (0 < copies id ss → refs q (attach id ss) ≡ (if q == id then refs q ss + 1 else refs q ss))
unfolding attach copies refs
attach_lem id q [] = (refl, λ h. absurd (omega (arith, h)))
attach_lem id q (s ∷ ss) =
    (ground (arith, attach_lem id q ss), λ h. ground (arith, h, attach_lem id q ss))

-- A process gets an attachment: its segment counts one more, every other as before.
attach-IsValid :
    (id : ℕ) (m : Shm) (held : List ℕ) (s : Segment)
    → IsValid m held
    → find id m.table ≡ some s
    → IsValid (record m { table = attach id m.table }) (id ∷ held)
unfolding uses
attach-IsValid id m held s v e = record {
  once = λ q. omega (arith, (attach_lem id q m.table).0, v.once q);
  counted = λ q nz.
      ground (arith, (attach_lem id q m.table).1 (find-copies id m.table s e), v.counted q nz);
  fresh = λ q le. (attach_lem id q m.table).0 ∙ v.fresh q le;
  started = v.started;
}

-- The first slot that is 0, and the ones before it, or all of them, in use.
abbrev pub FirstFree : List ℕ → Option ℕ → Type 0
FirstFree xs none = (i : ℕ) → i < length xs → get_or xs i 0 ≢ 0
FirstFree xs (some k) =
    (k < length xs) × (get_or xs k 1 ≡ 0) × ((i : ℕ) → i < k → get_or xs i 0 ≢ 0)

free_slot-cons :
    (x : ℕ) (xs : List ℕ) (o : Option ℕ)
    → x ≢ 0
    → FirstFree xs o
    → FirstFree (x ∷ xs) (Option.map suc o)
free_slot-cons x xs none nz f = all
  where
    all : (i : ℕ) → i < suc (length xs) → get_or (x ∷ xs) i 0 ≢ 0
    all zero lt = nz
    all (suc i) lt = f i (omega (arith, lt))
free_slot-cons x xs (some k) nz f = (omega (arith, f.0), f.1, before)
  where
    before : (i : ℕ) → i < suc k → get_or (x ∷ xs) i 0 ≢ 0
    before zero lt = nz
    before (suc i) lt = f.2 i (omega (arith, lt))

free_slot-FirstFree : (xs : List ℕ) → FirstFree xs (free_slot xs)
unfolding free_slot
free_slot-FirstFree [] = λ i lt. absurd (omega (arith, lt))
free_slot-FirstFree (x ∷ xs) = elim (Bool-cases (x == 0)) [
  | inl free ↦ rw free (omega arith, (==_iff x 0).0 free, λ i lt. absurd (omega (arith, lt)))
  | inr used ↦
      rw used (free_slot-cons x xs (free_slot xs) (==→ne x 0 used) (free_slot-FirstFree xs))
]

-- What `sys_shm_at` may answer: an address and one attachment more, or -1 and nothing changed.
abbrev pub Attached : ℕ → Process → Shm → List ℕ → Option ℕ × Process × Shm → Type 0
Attached id p m held (none, p', m') =
    (p' ≡ p) × (m' ≡ m) × ((find id m.table ≡ none) ⊎ FirstFree p.shm_ids none)
Attached id p m held (some a, p', m') =
    IsValid m' (id ∷ held)
    × ((s : Segment) × (slot : ℕ) × (find id m.table ≡ some s)
        × FirstFree p.shm_ids (some slot)
        × (a ≡ user_shm_base + slot * page_size)
        × (p' ≡ record p {
          shm_ids = set p.shm_ids slot id;
          shm_virtual_addresses = set p.shm_virtual_addresses slot a;
        })
        × (m'.vmm ≡ map_page (p.cr3 / page_size) a s.phys_frame 6 m.vmm))
    × (m'.next_id ≡ m.next_id)

-- On a table that counts the attachments held, `sys_shm_at` answers -1 and changes nothing, exactly if no
-- segment has the id or no slot of the process is free, or it takes the first free slot: the answer is the
-- page of that slot from the base of shared memory on, there the frame of the segment is mapped in the
-- tables of the process, for reading and writing by the user, the slot has the id and the address and all
-- others are as before, and the table counts the new attachment too.
pub shm_at-Attached :
    (id : ℕ) (p : Process) (m : Shm) (held : List ℕ)
    → IsValid m held
    → Attached id p m held (shm_at id p m)
unfolding shm_at
shm_at-Attached id p m held v = elim (Option-cases (find id m.table)) [
  | inl missing ↦ rw (missing, shm_at) (refl, refl, inl missing)
  | inr (s, found) ↦ elim (Option-cases (free_slot p.shm_ids)) [
    | inl full ↦
        rw (found, full, shm_at)
          (refl, refl, inr (subst (FirstFree p.shm_ids) full (free_slot-FirstFree p.shm_ids)))
    | inr (slot, free) ↦
        rw (found, free, shm_at)
          (
            attached (attach-IsValid id m held s v found),
            (
              s,
              slot,
              found,
              subst (FirstFree p.shm_ids) free (free_slot-FirstFree p.shm_ids),
              refl,
              refl,
              refl,
            ),
            refl,
          )
  ]
]
  where
    attached :
        {vmm' : Vmm}
        → IsValid (record m { table = attach id m.table }) (id ∷ held)
        → IsValid (record m { table = attach id m.table; vmm = vmm' }) (id ∷ held)
    attached w = record { once = w.once; counted = w.counted; fresh = w.fresh; started = w.started }

-- What the loop of a detachment does to a table with unique ids.
detach-copies : (id q : ℕ) (ss : List Segment) → copies q (detach id ss).0 ≤ copies q ss
unfolding detach copies
detach-copies id q [] = omega arith
detach-copies id q (s ∷ ss) = ground (arith, detach-copies id q ss)

detach_own :
    (id : ℕ) (ss : List Segment) → copies id ss ≤ 1 → refs id (detach id ss).0 ≡ refs id ss - 1
unfolding detach copies refs
detach_own id [] once = refl
detach_own id (s ∷ ss) once = elim (Bool-cases (matches id s)) [
  | inl hit ↦ hit_case hit (copies-refs id ss (ground (arith, hit, once)))
  | inr miss ↦ rw miss (rw miss (detach_own id ss (ground (arith, miss, once))))
]
  where
    hit_case :
        matches id s ≡ true → refs id ss ≡ 0 → refs id (detach id (s ∷ ss)).0 ≡ refs id (s ∷ ss) - 1
    hit_case hit none_left = ground (arith, hit, none_left)

detach_other : (id q : ℕ) (ss : List Segment) → q ≢ id → refs q (detach id ss).0 ≡ refs q ss
unfolding detach refs
detach_other id q [] ne = refl
detach_other id q (s ∷ ss) ne = ground (arith, ne, detach_other id q ss ne)

detach_frame :
    (id : ℕ) (ss : List Segment) (s : Segment)
    → copies id ss ≤ 1
    → find id ss ≡ some s
    → (detach id ss).1 ≡ (if leb (refs id ss - 1) 0 then some s.phys_frame else none)
unfolding detach find copies refs
detach_frame id [] s once e = cc
detach_frame id (x ∷ ss) s once e = elim (Bool-cases (matches id x)) [
  | inl hit ↦ hit_case hit (copies-refs id ss (ground (arith, hit, once))) (rw hit at e)
  | inr miss ↦ rw miss (detach_frame id ss s (ground (arith, miss, once)) (rw miss at e))
]
  where
    hit_case :
        matches id x ≡ true
        → refs id ss ≡ 0
        → some x ≡ some s
        → (detach id (x ∷ ss)).1
          ≡ (if leb (refs id (x ∷ ss) - 1) 0 then some s.phys_frame else none)
    hit_case hit none_left same = ground (arith, hit, none_left, same)

-- The frame goes back exactly when the last attachment of the id goes.
abbrev pub Freed : ℕ → List ℕ → Segment → Shm → Shm → Type 0
Freed id held s m m' =
    ((uses id held ≡ 0) × (m'.vmm ≡ record m.vmm { pmm = free_page m.vmm.pmm s.phys_frame }))
    ⊎ ((0 < uses id held) × (m'.vmm ≡ m.vmm))

-- A process gives up an attachment: the table counts the ones that are left, and the frame of the
-- segment is freed exactly when none is left of its id.
pub detach_segment-Freed :
    (id : ℕ) (m : Shm) (held : List ℕ)
    → id ≢ 0
    → IsValid m (id ∷ held)
    → IsValid (detach_segment id m) held
      × ((s : Segment) × (find id m.table ≡ some s) × Freed id held s m (detach_segment id m))
unfolding detach_segment uses
detach_segment-Freed id m held nz v = (kept, freed (Option-cases (find id m.table)))
  where
    counted_id : refs id m.table ≡ uses id held + 1
    counted_id = ground (arith, v.counted id nz)

    kept : IsValid (detach_segment id m) held
    kept = record {
      once = λ q. omega (arith, detach-copies id q m.table, v.once q);
      counted = λ q qz. elim (Bool-cases (q == id)) [
        | inl e ↦
            rw ((==_iff q id).0 e) (omega (arith, detach_own id m.table (v.once id), counted_id))
        | inr e ↦ ground (arith, detach_other id q m.table (==→ne q id e), v.counted q qz, e)
      ];
      fresh = λ q le. omega (arith, detach-copies id q m.table, v.fresh q le);
      started = v.started;
    }

    freed :
        (find id m.table ≡ none) ⊎ ((s : Segment) × (find id m.table ≡ some s))
        → (s : Segment) × (find id m.table ≡ some s) × Freed id held s m (detach_segment id m)
    freed (inl missing) =
        absurd (omega (arith, counted_id, copies-refs id m.table (find-none id m.table missing)))
    freed (inr (s, found)) = (s, found, last (Bool-cases (leb (refs id m.table - 1) 0)))
      where
        at_frame :
            (detach id m.table).1
            ≡ (if leb (refs id m.table - 1) 0 then some s.phys_frame else none)
        at_frame = detach_frame id m.table s (v.once id) found

        last :
            (leb (refs id m.table - 1) 0 ≡ true) ⊎ (leb (refs id m.table - 1) 0 ≡ false)
            → Freed id held s m (detach_segment id m)
        last (inl e) = inl (ground (arith, e, counted_id), rw (at_frame, e, detach_segment) refl)
        last (inr e) = inr (ground (arith, e, counted_id), rw (at_frame, e, detach_segment) refl)

detach_all-IsValid :
    (ids : List ℕ) (m : Shm) (held : List ℕ)
    → IsValid m (ids ++ held)
    → IsValid (detach_all ids m) held
unfolding detach_all
detach_all-IsValid [] m held v = v
detach_all-IsValid (id ∷ ids) m held v = elim (Bool-cases (id == 0)) [
  | inl zero_id ↦ rw zero_id (detach_all-IsValid ids m held (skip ((==_iff id 0).0 zero_id)))
  | inr used ↦ rw used (
      detach_all-IsValid ids (detach_segment id m) held
        (detach_segment-Freed id m (ids ++ held) (==→ne id 0 used) v).0)
]
  where
    skip : id ≡ 0 → IsValid m (ids ++ held)
    skip e = record {
      once = v.once;
      counted =
          λ q nz. v.counted q nz ∙ (unfold uses in rw (ne→== id q (λ h. nz (sym h ∙ e))) refl);
      fresh = v.fresh;
      started = v.started;
    }

uses-replicate : (n q : ℕ) → q ≢ 0 → uses q (replicate n 0) ≡ 0
unfolding uses
uses-replicate zero q nz = refl
uses-replicate (suc n) q nz = rw (ne→== 0 q (λ h. nz (sym h))) (uses-replicate n q nz)

-- The clean-up of a dead process gives up exactly its attachments: the table then counts those that the
-- other processes hold, and the process has none.
pub ipc_cleanup-IsValid :
    (p : Process) (m : Shm) (held : List ℕ)
    → IsValid m (p.shm_ids ++ held)
    → IsValid (ipc_cleanup p m).1 held × ((q : ℕ) → q ≢ 0 → uses q (ipc_cleanup p m).0.shm_ids ≡ 0)
unfolding ipc_cleanup
ipc_cleanup-IsValid p m held v =
    (detach_all-IsValid p.shm_ids m held v, λ q nz. uses-replicate (length p.shm_ids) q nz)
