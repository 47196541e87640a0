-- ===== src/Tty/Input.antt =====
-- The input queue against the queue of the bytes typed.
use mathlib.Core.List.{append_assoc, append-nil}
use sirius_education.Common.{
  ℕ, suc, ◌+◌, ◌-◌, ◌<◌, ◌≡◌, refl, sym, ap, ◌∙◌, true, ◌&&◌, inl, inr, Option, none, some, List,
  [], ◌∷◌, ◌++◌, map, length, length-append, take, ◌==◌, arith, Option-cases, if◌then◌else◌, min,
}
use sirius_education.Ring.{Ring, put, contents}
use sirius_education.Ring.Contents.{Put, Got, put-get-queue}
use sirius_education.Ring.Contents
use sirius_education.Tty.{
  Tty, buf_size, newline, put_queue, translate, echo_char, note_line, accept, write_from,
  write_to_in_queue,
}

-- The bytes that wait to be read, and those that wait to be shown.
abbrev pub typed : Tty → List ℕ
typed t = contents buf_size t.input

abbrev pub shown : Tty → List ℕ
shown t = contents buf_size t.output

unfoldable pub newlines : List ℕ → ℕ
newlines [] = 0
newlines (c ∷ cs) = if c == newline then newlines cs + 1 else newlines cs

-- Both queues are sound, and the two counters count the bytes and, in canonical mode, the lines.
pub record IsValid (t : Tty) : Type 0 where
  pub input_valid : Contents.IsValid buf_size t.input
  pub output_valid : Contents.IsValid buf_size t.output
  pub raw_counts : t.raw_count ≡ length (typed t)
  pub lines_count : t.canonical ≡ true → t.lines_available ≡ newlines (typed t)

pub newlines-append :
    (xs : List ℕ) (c : ℕ)
    → newlines (xs ++ (c ∷ [])) ≡ (if c == newline then newlines xs + 1 else newlines xs)
unfolding newlines
newlines-append [] c = refl
newlines-append (x ∷ xs) c = ground (arith, newlines-append xs c)

put_queue-output :
    (t : Tty) (c : ℕ)
    → Contents.IsValid buf_size t.output
    → Contents.IsValid buf_size (put_queue t c).output
unfolding put_queue
put_queue-output t c v = elim (Option-cases (put buf_size t.output c)) [
  | inl full ↦ rw (full, put_queue) v
  | inr (o, stored) ↦
      rw (stored, put_queue) (rw stored at (put-get-queue buf_size t.output c v).0).0
]

-- The echo changes the output queue only, and the line count only itself.
echo_char-output :
    (t : Tty) (c : ℕ)
    → Contents.IsValid buf_size t.output
    → Contents.IsValid buf_size (echo_char t c).output
unfolding echo_char
echo_char-output t c v = ground (arith, put_queue-output t c v)

put_queue-keeps :
    (t : Tty) (c : ℕ)
    → ((put_queue t c).input ≡ t.input)
      × ((put_queue t c).raw_count ≡ t.raw_count)
      × ((put_queue t c).lines_available ≡ t.lines_available)
      × ((put_queue t c).canonical ≡ t.canonical)
unfolding put_queue
put_queue-keeps t c = ground arith

echo_char-keeps :
    (t : Tty) (c : ℕ)
    → ((echo_char t c).input ≡ t.input)
      × ((echo_char t c).raw_count ≡ t.raw_count)
      × ((echo_char t c).lines_available ≡ t.lines_available)
      × ((echo_char t c).canonical ≡ t.canonical)
unfolding echo_char
echo_char-keeps t c = ground (arith, put_queue-keeps t c)

note_line-keeps :
    (t : Tty) (c : ℕ)
    → ((note_line t c).input ≡ t.input)
      × ((note_line t c).raw_count ≡ t.raw_count)
      × ((note_line t c).output ≡ t.output)
      × ((note_line t c).canonical ≡ t.canonical)
      × ((note_line t c).lines_available
          ≡ (if t.canonical && (c == newline) then t.lines_available + 1 else t.lines_available))
unfolding note_line
note_line-keeps t c = ground arith

-- What one byte does: it goes to the end of the queue, or the queue is full.
abbrev Accepted : Tty → ℕ → Option Tty → Type 0
Accepted t c none = length (typed t) + 1 ≡ buf_size
Accepted t c (some t') =
    IsValid t'
    × (typed t' ≡ typed t ++ (c ∷ []))
    × (t'.canonical ≡ t.canonical)
    × (length (typed t) + 1 < buf_size)

stored-Accepted :
    (t : Tty) (c : ℕ) (i : Ring)
    → IsValid t
    → Put buf_size t.input c (some i)
    → Accepted t c
        (some (note_line (echo_char (record t { input = i; raw_count = t.raw_count + 1 }) c) c))
stored-Accepted t c i v p = (
  record {
    input_valid = rw (note_line-keeps echoed c).0 (rw (echo_char-keeps stored c).0 p.0);
    output_valid = rw (note_line-keeps echoed c).2 (echo_char-output stored c v.output_valid);
    raw_counts =
        (note_line-keeps echoed c).1
        ∙ (echo_char-keeps stored c).1
        ∙ one_more
        ∙ sym (ap length joined);
    lines_count = λ on. ground (
      arith,
      note_line-keeps echoed c,
      echo_char-keeps stored c,
      ap newlines joined,
      newlines-append (typed t) c,
      v.lines_count (sym canonical_kept ∙ on),
    );
  },
  joined,
  canonical_kept,
  p.2,
)
  where
    stored : Tty
    stored = record t { input = i; raw_count = t.raw_count + 1 }

    echoed : Tty
    echoed = echo_char stored c

    joined : typed (note_line echoed c) ≡ typed t ++ (c ∷ [])
    joined =
        ap (contents buf_size) ((note_line-keeps echoed c).0 ∙ (echo_char-keeps stored c).0) ∙ p.1

    canonical_kept : (note_line echoed c).canonical ≡ t.canonical
    canonical_kept = (note_line-keeps echoed c).3 ∙ (echo_char-keeps stored c).3

    one_more : t.raw_count + 1 ≡ length (typed t ++ (c ∷ []))
    one_more = omega (arith, v.raw_counts, length-append (typed t) (c ∷ []))

accept-Accepted : (t : Tty) (c : ℕ) → IsValid t → Accepted t c (accept t c)
unfolding accept
accept-Accepted t c v = elim (Option-cases (put buf_size t.input c)) [
  | inl full ↦ rw (full, accept) (rw full at (put-get-queue buf_size t.input c v.input_valid).0)
  | inr (i, stored) ↦
      rw (stored, accept)
        (stored-Accepted t c i v (rw stored at (put-get-queue buf_size t.input c v.input_valid).0))
]

-- What a write of `src` leaves when it stops with `k` bytes taken: those are the first ones, and all
-- of them unless the queue is full.
abbrev pub Wrote : Tty → List ℕ → ℕ → Tty → Type 0
Wrote t src k t' =
    IsValid t'
    × (t'.canonical ≡ t.canonical)
    × (k ≡ min (length src) (buf_size - 1 - length (typed t)))
    × (typed t' ≡ typed t ++ take k (map translate src))

write_from-Wrote :
    (t : Tty) (src : List ℕ) (i : ℕ)
    → IsValid t
    → (k : ℕ) × ((write_from t src i).0 ≡ i + k) × Wrote t src k (write_from t src i).1
unfolding write_from
write_from-Wrote t [] i v = (0, omega arith, (v, refl, omega arith, sym (append-nil (typed t))))
write_from-Wrote t (c ∷ cs) i v = elim (Option-cases (accept t (translate c))) [
  | inl full ↦ (
    0,
    rw (full, write_from) (omega arith),
    rw (full, write_from)
        (
          v,
          refl,
          omega (arith, rw full at (accept-Accepted t (translate c) v)),
          sym (append-nil (typed t)),
        ),
  )
  | inr (t', e) ↦
      rw (e, write_from)
        (more t' (rw e at (accept-Accepted t (translate c) v))
          (write_from-Wrote t' cs (i + 1) (rw e at (accept-Accepted t (translate c) v)).0))
]
  where
    more :
        (t' : Tty)
        → Accepted t (translate c) (some t')
        → (k : ℕ) × ((write_from t' cs (i + 1)).0 ≡ i + 1 + k)
          × Wrote t' cs k (write_from t' cs (i + 1)).1
        → (k : ℕ) × ((write_from t' cs (i + 1)).0 ≡ i + k)
          × Wrote t (c ∷ cs) k (write_from t' cs (i + 1)).1
    more t' a (k, n, w) = (
      suc k,
      omega (arith, n),
      (
        w.0,
        w.1 ∙ a.2,
        omega (arith, w.2, a.3, ap length a.1, length-append (typed t) (translate c ∷ [])),
        w.3
            ∙ ap (λ (xs : List ℕ). xs ++ take k (map translate cs)) a.1
            ∙ append_assoc (typed t) (translate c ∷ []) (take k (map translate cs)),
      ),
    )

-- A write takes as many bytes as fit, the first ones of the buffer, in their order and with each
-- carriage return as a newline, and answers how many; the queues stay inside their arrays and the two
-- counters stay the number of bytes held and, in canonical mode, of complete lines.
pub write_to_in_queue-Wrote :
    (t : Tty) (src : List ℕ)
    → IsValid t
    → Wrote t src (write_to_in_queue t src).0 (write_to_in_queue t src).1
unfolding write_to_in_queue
write_to_in_queue-Wrote t src v = done (write_from t src 0) (write_from-Wrote t src 0 v)
  where
    done : (r : ℕ × Tty) → (k : ℕ) × (r.0 ≡ 0 + k) × Wrote t src k r.1 → Wrote t src r.0 r.1
    done r (k, e, w) = rw (exact e) w
      where
        exact : r.0 ≡ 0 + k → r.0 ≡ k
        exact e = omega (arith, e)
