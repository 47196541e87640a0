-- ===== src/Mm/Heap/Valid.antt =====
-- The heap in its address range, and `kfree`.
use sirius_education.Common.{
  ℕ, ◌+◌, ◌^◌, ◌≤◌, ◌<◌, ◌≡◌, refl, ap, ◌∙◌, none, some, ◌==◌, if◌then◌else◌, arith,
}
use sirius_education.Common.Word.{sub64}
use sirius_education.Mm.Blocks.{header_size, release, coalesce}
use sirius_education.Mm.Blocks.Chain.{
  Chain, IsCoalesced, release-Chain, coalesce-Chain, coalesce-IsCoalesced,
}
use sirius_education.Mm.Blocks.Used.{
  used_at, used_at-release, used_at-coalesce, used_at_range, release-some,
}
use sirius_education.Mm.Frames.{done}
use sirius_education.Mm.Heap.{Heap, heap_base, initial_size, init, cold, kfree}

pub record IsValid (h : Heap) : Type 0 where
  pub tiled : Chain heap_base h.current_end h.blocks
  pub bounded : h.current_end < 2 ^ 64
  pub started : heap_base + initial_size ≤ h.current_end

-- What `kheap_init` leaves is valid, and nothing is in use.
pub init-IsValid : IsValid (init cold) × ((x : ℕ) → used_at (init cold).blocks x ≡ none)
unfolding init used_at
init-IsValid =
    (record { tiled = omega arith; bounded = omega arith; started = omega arith }, λ x. refl)

-- Each block in use can be freed: `kfree` of its pointer returns, the heap stays valid, no two
-- neighbours are free any more, that block is no longer in use, and all others are as before.
pub kfree_lem :
    (h : Heap) (a n : ℕ)
    → IsValid h
    → used_at h.blocks a ≡ some n
    → (h' : Heap) × (kfree (a + header_size) h ≡ done h')
      × IsValid h'
      × IsCoalesced h'.blocks
      × ((x : ℕ) → used_at h'.blocks x ≡ (if a == x then none else used_at h.blocks x))
unfolding kfree
kfree_lem h a n v u =
    let (bs, p) = release-some a n h.blocks u in
    (
      record h { blocks = coalesce bs },
      ground (arith, range, p, ap (λ (k : ℕ). release k h.blocks) back),
      record {
        tiled =
            coalesce-Chain heap_base h.current_end bs v.bounded
              (release-Chain heap_base h.current_end a h.blocks bs p v.tiled);
        bounded = v.bounded;
        started = v.started;
      },
      coalesce-IsCoalesced bs,
      λ x.
          used_at-coalesce x bs ∙ used_at-release heap_base h.current_end a x h.blocks bs v.tiled p,
    )
  where
    range : (heap_base ≤ a) × (a + header_size + n ≤ h.current_end)
    range = used_at_range heap_base h.current_end a n h.blocks v.tiled u

    back : sub64 (a + header_size) header_size ≡ a
    back = omega (arith, range, v.bounded)
