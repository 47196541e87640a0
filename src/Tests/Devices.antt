-- ===== src/Tests/Devices.antt =====
-- The terminal and the buffers at concrete states.
use sirius_education.Common.{
  ℕ, zero, suc, ◌+◌, ◌%◌, ◌≡◌, ◌≢◌, ◌∙◌, refl, sym, true, false, List, [], ◌∷◌, length, replicate,
  get_or, none, arith, ne→==, length-replicate,
}
use sirius_education.Ring.{Ring, put, get, window, contents, count}
use sirius_education.Ring.Contents.{Put, Got, put-get-queue, length-contents}
use sirius_education.Ring.Contents
use sirius_education.Tty.{Tty, buf_size, newline, write_to_in_queue, read_from_in_queue}
use sirius_education.Tty.Input.{
  typed, newlines, newlines-append, IsValid, Wrote, write_to_in_queue-Wrote,
}
use sirius_education.Tty.Lines.{Read, read_from_in_queue-Read, write_read-stuck}

-- Four places, with two bytes round the end of the array.
abbrev four : Ring
four = record { buf = 12 ∷ 0 ∷ 10 ∷ 11 ∷ []; head = 0; tail = 2 }

put-get-queue_example : Put 4 four 13 (put 4 four 13) × Got 4 four (get 4 four)
put-get-queue_example =
    put-get-queue 4 four 13 (record { sized = refl; head_in = omega arith; tail_in = omega arith })

abbrev blank : Ring
blank = record { buf = replicate buf_size 97; head = 0; tail = 0 }

abbrev idle : Tty
idle = record {
  input = blank;
  raw_count = 0;
  lines_available = 0;
  output = blank;
  canonical = true;
  echo = true;
}

blank-IsValid : Contents.IsValid buf_size blank
blank-IsValid = record {
  sized = length-replicate {A = ℕ} buf_size 97;
  head_in = omega arith;
  tail_in = omega arith;
}

idle-IsValid : IsValid idle
unfolding contents count window newlines
idle-IsValid = record {
  input_valid = blank-IsValid;
  output_valid = blank-IsValid;
  raw_counts = refl;
  lines_count = λ on. refl;
}

-- `l`, `s` and the return key.
abbrev typed_line : List ℕ
typed_line = 0x6C ∷ 0x73 ∷ 0x0D ∷ []

write_to_in_queue-Wrote_example :
    Wrote idle typed_line
      (write_to_in_queue idle typed_line).0
      (write_to_in_queue idle typed_line).1
write_to_in_queue-Wrote_example = write_to_in_queue-Wrote idle typed_line idle-IsValid

read_from_in_queue-Read_example : Read idle 80 (read_from_in_queue idle 80)
read_from_in_queue-Read_example = read_from_in_queue-Read idle 80 idle-IsValid

-- A full line buffer: 4095 times the same letter.
abbrev letters : Ring
letters = record { buf = replicate buf_size 97; head = 4095; tail = 0 }

get_or-letters : (n i : ℕ) → get_or (replicate n 97) i 0 ≢ newline
get_or-letters zero i e = absurd (omega (arith, e))
get_or-letters (suc n) zero e = absurd (omega (arith, e))
get_or-letters (suc n) (suc i) e = get_or-letters n i e

no_line : (t k : ℕ) → newlines (window buf_size (replicate buf_size 97) t k) ≡ 0
unfolding window newlines
no_line t zero = refl
no_line t (suc k) =
    newlines-append (window buf_size (replicate buf_size 97) t k)
      (get_or (replicate buf_size 97) ((t + k) % buf_size) 0)
    ∙ rw (ne→== _ newline (get_or-letters buf_size ((t + k) % buf_size))) (no_line t k)

abbrev stuck : Tty
stuck = record {
  input = letters;
  raw_count = 4095;
  lines_available = 0;
  output = blank;
  canonical = true;
  echo = false;
}

stuck-full : length (typed stuck) ≡ 4095
unfolding count
stuck-full = length-contents buf_size letters

stuck-no_line : newlines (typed stuck) ≡ 0
unfolding contents
stuck-no_line = no_line 0 (count buf_size letters)

stuck-IsValid : IsValid stuck
stuck-IsValid = record {
  input_valid = record {
    sized = length-replicate {A = ℕ} buf_size 97;
    head_in = omega arith;
    tail_in = omega arith;
  };
  output_valid = blank-IsValid;
  raw_counts = sym stuck-full;
  lines_count = λ on. sym stuck-no_line;
}

write_read-stuck_example :
    ((write_to_in_queue stuck typed_line).0 ≡ 0)
    × (typed (write_to_in_queue stuck typed_line).1 ≡ typed stuck)
    × (read_from_in_queue (write_to_in_queue stuck typed_line).1 80 ≡ none)
write_read-stuck_example =
    write_read-stuck stuck typed_line 80 stuck-IsValid refl stuck-full stuck-no_line (omega arith)
