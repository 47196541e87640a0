-- ===== src/Tty/Output.antt =====
-- The output queue, which the writing process fills and the reading one empties.
use mathlib.Core.List.{append_assoc, append-nil}
use sirius_education.Common.{
  ℕ, zero, suc, ◌+◌, ◌-◌, ◌<◌, ◌≡◌, refl, sym, ap, ◌∙◌, inl, inr, Option, none, some, List, [], ◌∷◌,
  ◌++◌, length, length-append, take, drop, arith, Bool-cases, Option-cases, min, ◌==◌, ==_iff,
  ==→ne,
}
use sirius_education.Ring.{Ring, put, get}
use sirius_education.Ring.Contents.{Put, Got, put-get-queue}
use sirius_education.Ring.Contents
use sirius_education.Tty.{
  Tty, buf_size, write_out_from, write_to_out_queue, read_out_from, read_from_out_queue,
}
use sirius_education.Tty.Input.{shown}

-- What a write to the output leaves: the first `k` bytes at the end of the output queue, and the input
-- as it was.
abbrev pub Sent : Tty → List ℕ → ℕ → Tty → Type 0
Sent t src k t' =
    Contents.IsValid buf_size t'.output
    × (t'.input ≡ t.input)
    × (k ≡ min (length src) (buf_size - 1 - length (shown t)))
    × (shown t' ≡ shown t ++ take k src)

write_out_from-Sent :
    (t : Tty) (src : List ℕ) (i : ℕ)
    → Contents.IsValid buf_size t.output
    → (k : ℕ) × ((write_out_from t src i).0 ≡ i + k) × Sent t src k (write_out_from t src i).1
unfolding write_out_from
write_out_from-Sent t [] i v = (0, omega arith, (v, refl, omega arith, sym (append-nil (shown t))))
write_out_from-Sent t (c ∷ cs) i v = elim (Option-cases (put buf_size t.output c)) [
  | inl full ↦ (
    0,
    rw (full, write_out_from) (omega arith),
    rw (full, write_out_from)
        (
          v,
          refl,
          omega (arith, rw full at (put-get-queue buf_size t.output c v).0),
          sym (append-nil (shown t)),
        ),
  )
  | inr (o, e) ↦
      rw (e, write_out_from)
        (more o (rw e at (put-get-queue buf_size t.output c v).0) (
          write_out_from-Sent (record t { output = o }) cs (i + 1)
            (rw e at (put-get-queue buf_size t.output c v).0).0))
]
  where
    more :
        (o : Ring)
        → Put buf_size t.output c (some o)
        → (k : ℕ) × ((write_out_from (record t { output = o }) cs (i + 1)).0 ≡ i + 1 + k)
          × Sent
              (record t { output = o })
              cs
              k
              (write_out_from (record t { output = o }) cs (i + 1)).1
        → (k : ℕ) × ((write_out_from (record t { output = o }) cs (i + 1)).0 ≡ i + k)
          × Sent t (c ∷ cs) k (write_out_from (record t { output = o }) cs (i + 1)).1
    more o p (k, n, w) = (
      suc k,
      omega (arith, n),
      (
        w.0,
        w.1,
        omega (arith, w.2, p.2, ap length p.1, length-append (shown t) (c ∷ [])),
        w.3
            ∙ ap (λ (xs : List ℕ). xs ++ take k cs) p.1
            ∙ append_assoc (shown t) (c ∷ []) (take k cs),
      ),
    )

write_to_out_queue-Sent :
    (t : Tty) (src : List ℕ)
    → Contents.IsValid buf_size t.output
    → Sent t src (write_to_out_queue t src).0 (write_to_out_queue t src).1
unfolding write_to_out_queue
write_to_out_queue-Sent t src v = done (write_out_from t src 0) (write_out_from-Sent t src 0 v)
  where
    done : (r : ℕ × Tty) → (k : ℕ) × (r.0 ≡ 0 + k) × Sent t src k r.1 → Sent t src r.0 r.1
    done r (k, e, w) = rw (exact e) w
      where
        exact : r.0 ≡ 0 + k → r.0 ≡ k
        exact e = omega (arith, e)

-- What a read of the output leaves: the bytes after the first `size`.
abbrev Drained : Tty → ℕ → List ℕ → Tty → Type 0
Drained t size got t' =
    Contents.IsValid buf_size t'.output
    × (t'.input ≡ t.input)
    × (got ≡ take size (shown t))
    × (shown t' ≡ drop size (shown t))

read_out_from-Drained :
    (t : Tty) (size : ℕ)
    → Contents.IsValid buf_size t.output
    → Drained t size (read_out_from t size).0 (read_out_from t size).1
unfolding read_out_from
read_out_from-Drained t zero v = (v, refl, refl, refl)
read_out_from-Drained t (suc size) v = elim (Option-cases (get buf_size t.output)) [
  | inl dry ↦ rw (dry, read_out_from) (nothing (rw dry at (put-get-queue buf_size t.output 0 v).1))
  | inr ((c, o), e) ↦
      rw (e, read_out_from)
        (one c o (read_out_from (record t { output = o }) size).0
          (read_out_from (record t { output = o }) size).1
          (rw e at (put-get-queue buf_size t.output 0 v).1)
          (read_out_from-Drained (record t { output = o }) size
            (rw e at (put-get-queue buf_size t.output 0 v).1).0))
]
  where
    nothing : shown t ≡ [] → Drained t (suc size) [] t
    nothing e = (v, refl, sym (ap (take (suc size)) e), e ∙ sym (ap (drop (suc size)) e))

    one :
        (c : ℕ) (o : Ring) (got : List ℕ) (t' : Tty)
        → Got buf_size t.output (some (c, o))
        → Drained (record t { output = o }) size got t'
        → Drained t (suc size) (c ∷ got) t'
    one c o got t' g w = (
      w.0,
      w.1,
      ap (λ (q : List ℕ). c ∷ q) w.2 ∙ sym (ap (take (suc size)) g.1),
      w.3 ∙ sym (ap (drop (suc size)) g.1),
    )

-- What a reader of a queue `q` meets: it sleeps, or it gets the front.
abbrev pub Arrives : List ℕ → ℕ → Option (List ℕ × Tty) → Type 0
Arrives q size none = (0 < size) × (q ≡ [])
Arrives q size (some (got, t')) = (got ≡ take size q) × (shown t' ≡ drop size q)

empty-get : (r : Ring) → r.head ≡ r.tail → get buf_size r ≡ none
unfolding get
empty-get r e = ground (arith, e)

empty-shown :
    (t : Tty) → Contents.IsValid buf_size t.output → t.output.head ≡ t.output.tail → shown t ≡ []
empty-shown t v e = rw (empty-get t.output e) at (put-get-queue buf_size t.output 0 v).1

read_from_out_queue-Arrives :
    (t : Tty) (size : ℕ)
    → Contents.IsValid buf_size t.output
    → Arrives (shown t) size (read_from_out_queue t size)
unfolding read_from_out_queue
read_from_out_queue-Arrives t size v = elim (Bool-cases (size == 0)) [
  | inl z ↦ rw z (
    sym (ap (λ (n : ℕ). take n (shown t)) ((==_iff size 0).0 z)),
    sym (ap (λ (n : ℕ). drop n (shown t)) ((==_iff size 0).0 z)),
  )
  | inr nz ↦ elim (Bool-cases (t.output.head == t.output.tail)) [
    | inl dry ↦ rw (nz, dry) (omega (arith, ==→ne size 0 nz), empty-shown t v ((==_iff _ _).0 dry))
    | inr wet ↦
        rw (nz, wet) ((read_out_from-Drained t size v).2, (read_out_from-Drained t size v).3)
  ]
]

-- The output is a queue of at most 4095 bytes: a writer adds the first bytes of its buffer, as many as
-- fit, at the end, and a reader of `size` bytes then finds what waited before and after that what was
-- written, in order, and takes the first `size`; it sleeps exactly if it asks for bytes and none waits.
-- The input queue is not touched by the write.
pub write_out-read_out :
    (t : Tty) (src : List ℕ) (size : ℕ)
    → Contents.IsValid buf_size t.output
    → Sent t src (write_to_out_queue t src).0 (write_to_out_queue t src).1
      × Arrives
          (shown t ++ take (write_to_out_queue t src).0 src)
          size
          (read_from_out_queue (write_to_out_queue t src).1 size)
write_out-read_out t src size v = (
  write_to_out_queue-Sent t src v,
  rw (sym (write_to_out_queue-Sent t src v).3) (
      read_from_out_queue-Arrives (write_to_out_queue t src).1 size
        (write_to_out_queue-Sent t src v).0),
)
