-- ===== src/User/Heap/Free.antt =====
-- `ufree`, and the kernel's `brk` behind the heap.
use sirius_education.Common.{
  ℕ, ◌+◌, ◌≤◌, ◌≡◌, refl, ap, ◌∙◌, none, some, inl, inr, ◌⊎◌, ◌==◌, if◌then◌else◌, arith,
}
use sirius_education.Common.Word.{sub64}
use sirius_education.Mm.Frames.{Frames, done}
use sirius_education.Mm.Blocks.{header_size, release, coalesce}
use sirius_education.Mm.Blocks.Chain.{
  IsCoalesced, release-Chain, coalesce-Chain, coalesce-IsCoalesced,
}
use sirius_education.Mm.Blocks.Used.{
  used_at, used_at-release, used_at-coalesce, used_at_range, release-some,
}
use sirius_education.Mm.Brk.{Process, brk, brk-Answers}
use sirius_education.User.Heap.{Break, UHeap, ufree}
use sirius_education.User.Heap.Grow.{IsValid}

-- Each block in use can be freed: `ufree` of its pointer returns, the heap stays sound, no two
-- neighbours are free any more, that block is no longer in use, and all others are as before.
pub ufree_lem :
    (kernel : Break) (base : ℕ) (h : UHeap) (st : kernel.State) (a n : ℕ)
    → IsValid kernel base h st
    → used_at h.blocks a ≡ some n
    → (h' : UHeap) × (ufree (a + header_size) h ≡ done h')
      × IsValid kernel base h' st
      × IsCoalesced h'.blocks
      × ((x : ℕ) → used_at h'.blocks x ≡ (if a == x then none else used_at h.blocks x))
unfolding ufree
ufree_lem kernel base h st a n v u =
    let (bs, p) = release-some a n h.blocks u in
    (
      record h { blocks = coalesce bs },
      ground (arith, range, p, ap (λ (k : ℕ). release k h.blocks) back),
      record {
        aligned = v.aligned;
        tiled =
            coalesce-Chain base (kernel.limit st) bs v.bounded
              (release-Chain base (kernel.limit st) a h.blocks bs p v.tiled);
        bounded = v.bounded;
      },
      coalesce-IsCoalesced bs,
      λ x. used_at-coalesce x bs ∙ used_at-release base (kernel.limit st) a x h.blocks bs v.tiled p,
    )
  where
    range : (base ≤ a) × (a + header_size + n ≤ kernel.limit st)
    range = used_at_range base (kernel.limit st) a n h.blocks v.tiled u

    back : sub64 (a + header_size) header_size ≡ a
    back = omega (arith, range, v.bounded)

-- The `brk` call of a process that has one: the state is the process and the frames.
module _ (frames : Frames) where
  abbrev pub call : ℕ → Process × frames.State → ℕ × (Process × frames.State)
  call address (p, st) = elim (brk frames address (some p) st).1 [
    | none ↦ ((brk frames address (some p) st).0, (p, (brk frames address (some p) st).2))
    | some q ↦ ((brk frames address (some p) st).0, (q, (brk frames address (some p) st).2))
  ]

  pub call_asked : (s : Process × frames.State) → call 0 s ≡ (s.0.heap_end, s)
  unfolding brk
  call_asked s = refl

  pub call_moves :
      (address : ℕ) (s : Process × frames.State)
      → ((call address s).0 ≡ (call address s).1.0.heap_end)
        × (((call address s).1.0.heap_end ≡ s.0.heap_end)
            ⊎ ((call address s).1.0.heap_end ≡ address))
  call_moves address s = elim (brk-Answers frames address s.0 s.1) [
    | inl (r, p) ↦ rw (p, call) (r, inl refl)
    | inr (r, p, low, high) ↦ rw (p, call) (r, inr refl)
  ]

  -- The kernel's `brk` keeps what the heap relies on.
  abbrev pub kernel_break : Break
  kernel_break = record {
    State = Process × frames.State;
    brk = call;
    limit = λ s. s.0.heap_end;
    brk-limit = λ s. ap (λ (q : ℕ × (Process × frames.State)). q.0) (call_asked s);
    brk-asked = λ s. ap (λ (q : ℕ × (Process × frames.State)). q.1.0.heap_end) (call_asked s);
    brk-answer = λ address s. (call_moves address s).0;
    brk-moves = λ address s. (call_moves address s).1;
  }
