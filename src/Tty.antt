-- ===== src/Tty.antt =====
-- The terminal queues of kernel/drivers/tty/tty.c: the input queue with its line discipline, the
-- output queue, and the driver's catalogue of terminals. Each call holds the terminal's lock; a call
-- that would sleep answers `none`. The drawing into the video buffer is not modelled.
pub mod Input
pub mod Lines
pub mod Output
use sirius_education.Common.{
  ℕ, zero, suc, ◌+◌, ◌-◌, Bool, true, false, ◌&&◌, ◌||◌, Option, none, some, List, [], ◌∷◌, set,
  get_or, replicate, ltb, leb, ◌==◌, if◌then◌else◌,
}
use sirius_education.Ring.{Ring, put, get}

-- `TTY_BUF_SIZE`
abbrev pub buf_size : ℕ
buf_size = 4096

abbrev pub newline : ℕ
newline = 0x0A

abbrev pub carriage_return : ℕ
carriage_return = 0x0D

-- `struct tty_device`, the queues: `canonical` and `echo` are the two bits of `c_lflag`.
pub record Tty : Type 0 where
  pub input : Ring
  pub raw_count : ℕ
  pub lines_available : ℕ
  pub output : Ring
  pub canonical : Bool
  pub echo : Bool

-- `tty_put_queue`: a full queue drops the character.
unfoldable pub put_queue : Tty → ℕ → Tty
put_queue t c = elim (put buf_size t.output c) [ none ↦ t | some o ↦ record t { output = o } ]

-- `if (c == ASCII_CR) c = ASCII_NL;`
unfoldable pub translate : ℕ → ℕ
translate c = if c == carriage_return then newline else c

-- `if (tty->c_lflag & TTY_ECHO) tty_put_queue(tty, c);`
unfoldable pub echo_char : Tty → ℕ → Tty
echo_char t c = if t.echo then put_queue t c else t

-- `if (tty->c_lflag & TTY_ICANON)`: a newline completes a line.
unfoldable pub note_line : Tty → ℕ → Tty
note_line t c =
    if t.canonical && (c == newline)
    then record t { lines_available = t.lines_available + 1 }
    else t

-- One round of the loop of `tty_write_to_in_queue`; `none` when the queue is full.
unfoldable pub accept : Tty → ℕ → Option Tty
accept t c = elim (put buf_size t.input c) [
  | none ↦ none
  | some i ↦ some (note_line (echo_char (record t { input = i; raw_count = t.raw_count + 1 }) c) c)
]

unfoldable pub write_from : Tty → List ℕ → ℕ → ℕ × Tty
write_from t [] written = (written, t)
write_from t (c ∷ cs) written = elim (accept t (translate c)) [
  | none ↦ (written, t)
  | some t' ↦ write_from t' cs (written + 1)
]

-- `tty_write_to_in_queue`: the number of bytes taken.
unfoldable pub write_to_in_queue : Tty → List ℕ → ℕ × Tty
write_to_in_queue t buf = write_from t buf 0

-- The loop of `tty_read_from_in_queue`, for at most `size` more bytes.
unfoldable pub read_from : Tty → ℕ → List ℕ × Tty
read_from t zero = ([], t)
read_from t (suc size) = elim (get buf_size t.input) [
  | none ↦ ([], t)
  | some (c, i) ↦
      let taken = record t { input = i; raw_count = t.raw_count - 1 } in
      let rest = read_from taken size in
      if t.canonical && (c == newline)
      then (c ∷ [], record taken { lines_available = t.lines_available - 1 })
      else (c ∷ rest.0, rest.1)
]

-- The condition that ends the wait of `tty_read_from_in_queue`.
unfoldable pub ready : Tty → Bool
ready t = if t.canonical then ltb 0 t.lines_available else ltb 0 t.raw_count

-- `tty_read_from_in_queue`; `none` while it sleeps.
unfoldable pub read_from_in_queue : Tty → ℕ → Option (List ℕ × Tty)
unfolding ready
read_from_in_queue t size =
    if size == 0 then some ([], t) else if ready t then some (read_from t size) else none

unfoldable pub write_out_from : Tty → List ℕ → ℕ → ℕ × Tty
write_out_from t [] written = (written, t)
write_out_from t (c ∷ cs) written = elim (put buf_size t.output c) [
  | none ↦ (written, t)
  | some o ↦ write_out_from (record t { output = o }) cs (written + 1)
]

-- `tty_write_to_out_queue`
unfoldable pub write_to_out_queue : Tty → List ℕ → ℕ × Tty
write_to_out_queue t buf = write_out_from t buf 0

unfoldable pub read_out_from : Tty → ℕ → List ℕ × Tty
read_out_from t zero = ([], t)
read_out_from t (suc size) = elim (get buf_size t.output) [
  | none ↦ ([], t)
  | some (c, o) ↦ let rest = read_out_from (record t { output = o }) size in (c ∷ rest.0, rest.1)
]

-- `tty_read_from_out_queue`; `none` while it sleeps.
unfoldable pub read_from_out_queue : Tty → ℕ → Option (List ℕ × Tty)
read_from_out_queue t size =
    if size == 0
    then some ([], t)
    else if t.output.head == t.output.tail
    then none
    else some (read_out_from t size)

-- `tty_pop_output`
unfoldable pub pop_output : Tty → Option (ℕ × Tty)
pop_output t = elim (get buf_size t.output) [
  | none ↦ none
  | some (c, o) ↦ some (c, record t { output = o })
]

-- `MAX_TTY_DRV_DEVICES`
abbrev pub max_devices : ℕ
max_devices = 4

-- `g_tty_instances` (0 for NULL) and `g_current_active_id`.
pub record Driver : Type 0 where
  pub instances : List ℕ
  pub current_active_id : ℕ

-- `tty_init`
unfoldable pub init : Driver
init = record { instances = replicate max_devices 0; current_active_id = 0 }

-- `tty_register_driver_instance` of the terminal at `pointer`.
unfoldable pub register_driver_instance : ℕ → ℕ → Tty → Driver → Tty × Driver
register_driver_instance id pointer t d = if leb max_devices id || (pointer == 0) then (t, d) else (
  record t {
    input = record { buf = t.input.buf; head = 0; tail = 0 };
    raw_count = 0;
    lines_available = 0;
    output = record { buf = t.output.buf; head = 0; tail = 0 };
  },
  record d { instances = set d.instances id pointer },
)

-- `tty_set_active_id`
unfoldable pub set_active_id : ℕ → Driver → Driver
set_active_id id d = if leb max_devices id then d else record d { current_active_id = id }

-- `tty_get_current`, 0 for NULL
unfoldable pub get_current : Driver → ℕ
get_current d =
    if ltb d.current_active_id max_devices then get_or d.instances d.current_active_id 0 else 0
