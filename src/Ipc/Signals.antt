-- ===== src/Ipc/Signals.antt =====
-- The pending signals of a process.
use sirius_education.Common.{
  ℕ, ◌^◌, ◌≤◌, ◌<◌, ◌≡◌, ◌≢◌, refl, sym, ap, ◌∙◌, true, false, some, inl, inr, ◌⊎◌, leb, ◌==◌,
  ==_iff, ==→ne, Bool-cases, arith, if◌then◌else◌,
}
use Prim.Native.Nat.{bit_or}
use sirius_education.Common.Bits.{bit, bit-bit_or, bit-pow_self, bit-pow_ne, bit-le-one}
use sirius_education.Ipc.{Process, Killed, kill}

-- A signal other than 9 to a process sets its own pending bit and leaves every other one; signal 9 ends
-- the process, and a number from 32 on or a missing process is refused.
pub kill_lem :
    (p : Process) (sig : ℕ)
    → ((sig < 32)
        × (sig ≢ 9)
        × ((q : Process) × (kill (some p) sig ≡ Killed.signalled q)
            × ((i : ℕ)
                → bit q.pending_signals i ≡ (if sig == i then 1 else bit p.pending_signals i))))
      ⊎ ((sig ≡ 9) × (kill (some p) sig ≡ Killed.terminated))
      ⊎ ((32 ≤ sig) × (kill (some p) sig ≡ Killed.refused))
unfolding kill
kill_lem p sig = elim (Bool-cases (leb 32 sig)) [
  | inl out ↦ rw out (inr (inr (ground (arith, out), refl)))
  | inr known ↦ elim (Bool-cases (sig == 9)) [
    | inl nine ↦ rw (known, nine) (inr (inl ((==_iff sig 9).0 nine, refl)))
    | inr other ↦
        rw (known, other)
          (inl (
            ground (arith, known),
            ==→ne sig 9 other,
            (_, refl, λ i. bits i (Bool-cases (sig == i))),
          ))
  ]
]
  where
    bits :
        (i : ℕ)
        → ((sig == i) ≡ true) ⊎ ((sig == i) ≡ false)
        → bit (bit_or p.pending_signals (2 ^ sig)) i
          ≡ (if sig == i then 1 else bit p.pending_signals i)
    bits i (inl e) = rw e (
        bit-bit_or p.pending_signals (2 ^ sig) i
        ∙ omega (
          arith,
          ap (bit (2 ^ sig)) (sym ((==_iff sig i).0 e)) ∙ bit-pow_self sig,
          bit-le-one p.pending_signals i,
        ))
    bits i (inr e) =
        rw e (
          bit-bit_or p.pending_signals (2 ^ sig) i
          ∙ omega (arith, bit-pow_ne sig i (==→ne sig i e)))
