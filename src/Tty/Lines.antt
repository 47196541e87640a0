-- ===== src/Tty/Lines.antt =====
-- The reader of the input queue against the next line.
use mathlib.Core.List.{append-nil}
use sirius_education.Common.{
  ℕ, zero, suc, ◌+◌, ◌-◌, ◌<◌, ◌≡◌, refl, sym, ap, ◌∙◌, Bool, true, false, ◌&&◌, ◌⊎◌, inl, inr,
  Option, none, some, List, [], ◌∷◌, ◌++◌, map, length, take, ltb, ◌==◌, arith, Bool-cases,
  Option-cases, ==_iff, ==→ne, if◌then◌else◌, ltb→lt, ltb→ge,
}
use sirius_education.Ring.{Ring, get}
use sirius_education.Ring.Contents.{Got, put-get-queue}
use sirius_education.Tty.{
  Tty, buf_size, newline, translate, write_to_in_queue, read_from, ready, read_from_in_queue,
}
use sirius_education.Tty.Input.{typed, newlines, IsValid, Wrote, write_to_in_queue-Wrote}

-- What a reader of at most `size` bytes gets of the queue: up to the end of the line in canonical mode.
unfoldable pub line : Bool → ℕ → List ℕ → List ℕ
line canonical zero q = []
line canonical (suc size) [] = []
line canonical (suc size) (c ∷ q) =
    let rest = line canonical size q in if canonical && (c == newline) then c ∷ [] else c ∷ rest

abbrev pub Took : Tty → ℕ → List ℕ → Tty → Type 0
Took t size got t' =
    IsValid t'
    × (t'.canonical ≡ t.canonical)
    × (got ≡ line t.canonical size (typed t))
    × (typed t ≡ got ++ typed t')

newlines_pos : (q : List ℕ) (c : ℕ) → (c == newline) ≡ true → 0 < newlines (c ∷ q)
unfolding newlines
newlines_pos q c e = rw e (omega arith)

-- One byte taken, with the counters kept.
after_get :
    (t : Tty) (c : ℕ) (i : Ring) (lines : ℕ)
    → IsValid t
    → Got buf_size t.input (some (c, i))
    → (t.canonical ≡ true → lines + (if c == newline then 1 else 0) ≡ t.lines_available)
    → IsValid (record t { input = i; raw_count = t.raw_count - 1; lines_available = lines })
unfolding newlines
after_get t c i lines v g l = record {
  input_valid = g.0;
  output_valid = v.output_valid;
  raw_counts = omega (arith, v.raw_counts, ap length g.1);
  lines_count = λ on. ground (arith, l on, v.lines_count on, ap newlines g.1);
}

line-dry : (canonical : Bool) (size : ℕ) → line canonical size [] ≡ []
unfolding line
line-dry canonical zero = refl
line-dry canonical (suc size) = refl

-- The rounds of the reading loop, from what the first one takes.
end_of_line :
    (t : Tty) (c size : ℕ) (i : Ring)
    → IsValid t
    → Got buf_size t.input (some (c, i))
    → (t.canonical && (c == newline)) ≡ true
    → Took t (suc size) (c ∷ []) (record t {
      input = i;
      raw_count = t.raw_count - 1;
      lines_available = t.lines_available - 1;
    })
unfolding line newlines
end_of_line t c size i v g e = (
  after_get t c i (t.lines_available - 1) v g
      (λ on. ground (arith, e, v.lines_count on, ap newlines g.1)),
  refl,
  sym (ap (line t.canonical (suc size)) g.1 ∙ rw e refl),
  g.1,
)

more_of_line :
    (t t' : Tty) (c size : ℕ) (i : Ring) (got : List ℕ)
    → Got buf_size t.input (some (c, i))
    → (t.canonical && (c == newline)) ≡ false
    → Took (record t { input = i; raw_count = t.raw_count - 1 }) size got t'
    → Took t (suc size) (c ∷ got) t'
unfolding line
more_of_line t t' c size i got g e w = (
  w.0,
  w.1,
  ap (λ (q : List ℕ). c ∷ q) w.2 ∙ sym (ap (line t.canonical (suc size)) g.1 ∙ rw e refl),
  g.1 ∙ ap (λ (q : List ℕ). c ∷ q) w.3,
)

got_one :
    (t : Tty) (c : ℕ) (i : Ring)
    → IsValid t
    → get buf_size t.input ≡ some (c, i)
    → Got buf_size t.input (some (c, i))
got_one t c i v e = rw e at (put-get-queue buf_size t.input 0 v.input_valid).1

got_none : (t : Tty) → IsValid t → get buf_size t.input ≡ none → typed t ≡ []
got_none t v e = rw e at (put-get-queue buf_size t.input 0 v.input_valid).1

after_byte :
    (t : Tty) (c : ℕ) (i : Ring)
    → IsValid t
    → Got buf_size t.input (some (c, i))
    → (t.canonical && (c == newline)) ≡ false
    → IsValid (record t { input = i; raw_count = t.raw_count - 1 })
after_byte t c i v g e = after_get t c i t.lines_available v g (λ on. ground (arith, e))

read_from-Took :
    (t : Tty) (size : ℕ) → IsValid t → Took t size (read_from t size).0 (read_from t size).1
unfolding read_from line
read_from-Took t zero v = (v, refl, refl, refl)
read_from-Took t (suc size) v = elim (Option-cases (get buf_size t.input)) [
  | inl dry ↦
      rw (dry, read_from) (v, refl, sym (ap (line t.canonical (suc size)) (got_none t v dry)), refl)
  | inr ((c, i), e) ↦ elim (Bool-cases (t.canonical && (c == newline))) [
    | inl eol ↦ rw (e, eol, read_from) (end_of_line t c size i v (got_one t c i v e) eol)
    | inr mid ↦
        rw (e, mid, read_from)
          (more_of_line t _ c size i _ (got_one t c i v e) mid (
            read_from-Took (record t { input = i; raw_count = t.raw_count - 1 }) size
              (after_byte t c i v (got_one t c i v e) mid)))
  ]
]

-- There is something to read: a complete line, or in raw mode a byte.
abbrev pub readable : Tty → ℕ
readable t = if t.canonical then newlines (typed t) else length (typed t)

abbrev pub Read : Tty → ℕ → Option (List ℕ × Tty) → Type 0
Read t size none = (0 < size) × (readable t ≡ 0)
Read t size (some (got, t')) = ((size ≡ 0) ⊎ (0 < readable t)) × Took t size got t'

readable-ready : (t : Tty) → IsValid t → ready t ≡ ltb 0 (readable t)
unfolding ready
readable-ready t v = ground (arith, v.raw_counts, v.lines_count)

-- A read sleeps exactly when the queue holds no complete line (in raw mode, no byte) and more than 0
-- bytes are asked for. Otherwise it takes from the front of the queue up to `size` bytes, in canonical
-- mode no further than the end of the line, and leaves the rest; the queues stay inside their arrays
-- and the counters stay the number of bytes held and, in canonical mode, of complete lines.
pub read_from_in_queue-Read :
    (t : Tty) (size : ℕ) → IsValid t → Read t size (read_from_in_queue t size)
unfolding read_from_in_queue line
read_from_in_queue-Read t size v = elim (Bool-cases (size == 0)) [
  | inl z ↦ rw z (
    inl ((==_iff _ _).0 z),
    (v, refl, sym (ap (λ (n : ℕ). line t.canonical n (typed t)) ((==_iff size 0).0 z)), refl),
  )
  | inr nz ↦ elim (Bool-cases (ready t)) [
    | inl r ↦
        rw (nz, r)
          (inr (ltb→lt 0 (readable t) (sym (readable-ready t v) ∙ r)), read_from-Took t size v)
    | inr r ↦
        rw (nz, r)
          (
            omega (arith, ==→ne size 0 nz),
            omega (arith, ltb→ge 0 (readable t) (sym (readable-ready t v) ∙ r)),
          )
  ]
]

-- In canonical mode, when the queue holds 4095 bytes and no newline, a write takes 0 bytes and leaves
-- the queue as it was, and a read of more than 0 bytes after it sleeps.
pub write_read-stuck :
    (t : Tty) (src : List ℕ) (size : ℕ)
    → IsValid t
    → t.canonical ≡ true
    → length (typed t) ≡ buf_size - 1
    → newlines (typed t) ≡ 0
    → 0 < size
    → ((write_to_in_queue t src).0 ≡ 0)
      × (typed (write_to_in_queue t src).1 ≡ typed t)
      × (read_from_in_queue (write_to_in_queue t src).1 size ≡ none)
write_read-stuck t src size v on full none_ended some_wanted =
    (no_room, same, sleeps (read_from_in_queue after size) (read_from_in_queue-Read after size w.0))
  where
    after : Tty
    after = (write_to_in_queue t src).1

    w : Wrote t src (write_to_in_queue t src).0 (write_to_in_queue t src).1
    w = write_to_in_queue-Wrote t src v

    no_room : (write_to_in_queue t src).0 ≡ 0
    no_room = omega (arith, w.2, full)

    same : typed (write_to_in_queue t src).1 ≡ typed t
    same =
        w.3 ∙ ap (λ (k : ℕ). typed t ++ take k (map translate src)) no_room ∙ append-nil (typed t)

    nothing : readable after ≡ 0
    nothing = rw (w.1 ∙ on) (ap newlines same ∙ none_ended)

    sleeps : (o : Option (List ℕ × Tty)) → Read after size o → o ≡ none
    sleeps none r = refl
    sleeps (some (got, t')) r = absurd (omega (arith, r.0, nothing, some_wanted))
