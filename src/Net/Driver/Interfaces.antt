-- ===== src/Net/Driver/Interfaces.antt =====
-- The table of the interfaces.
use mathlib.Core.Path.{subst}
use sirius_education.Common.{
  ℕ, ◌+◌, ◌≤◌, ◌<◌, ◌≡◌, ◌≢◌, refl, sym, ◌∙◌, true, false, some, inl, inr, List, length, get_or,
  set, get_or-set_self, get_or-set_ne, length-set, leb, leb→gt, ◌==◌, ==_iff, ==→ne, ne→==,
  Bool-cases, arith,
}
use sirius_education.Common.Ints.{ℤ, pos, negsuc}
use sirius_education.Net.Driver.{
  NetInterface, blank, max_interfaces, Table, driver_register, get_field, set_field,
}

gt→leb : (a b : ℕ) → b < a → leb a b ≡ false
gt→leb a b h = ground arith

-- The table has room for four interfaces; exactly those below the count are active, each with its own id.
pub record IsValid (t : Table) : Type 0 where
  pub sized : length t.interfaces ≡ max_interfaces
  pub counted : t.count ≤ max_interfaces
  pub registered :
      (n : ℕ)
      → n < t.count
      → ((get_or t.interfaces n blank).active ≡ true) × ((get_or t.interfaces n blank).id ≡ n)
  pub free : (n : ℕ) → t.count ≤ n → (get_or t.interfaces n blank).active ≡ false

abbrev pub entry_of : List ℕ → ℕ → ℕ → NetInterface
entry_of mac ops n = record {
  id = n;
  mac = mac;
  ip = 0;
  mask = 0;
  gateway = 0;
  ops_table = ops;
  active = true;
  ready = false;
  is_online = false;
}

-- The outcome `r` of a registration.
pub record Registered (mac : List ℕ) (ops : ℕ) (t : Table) (r : ℤ × Table) : Type 0 where
  pub valid : IsValid r.1
  pub full : t.count ≡ max_interfaces → r ≡ (negsuc 0, t)
  pub answer : t.count < max_interfaces → r.0 ≡ pos t.count
  pub next_count : t.count < max_interfaces → r.1.count ≡ t.count + 1
  pub entry :
      t.count < max_interfaces → get_or r.1.interfaces t.count blank ≡ entry_of mac ops t.count
  pub before : (n : ℕ) → n < t.count → get_or r.1.interfaces n blank ≡ get_or t.interfaces n blank
  pub primary : t.count ≡ 0 → r.1.active_ops ≡ ops
  pub kept : t.count ≢ 0 → r.1.active_ops ≡ t.active_ops

entry_here :
    (mac : List ℕ) (ops : ℕ) (t : Table) (n : ℕ)
    → IsValid t
    → t.count < max_interfaces
    → n < t.count + 1
    → ((get_or (set t.interfaces t.count (entry_of mac ops t.count)) n blank).active ≡ true)
      × ((get_or (set t.interfaces t.count (entry_of mac ops t.count)) n blank).id ≡ n)
entry_here mac ops t n v room h = elim (Bool-cases (t.count == n)) [
  | inl e ↦
      subst
        (λ (k : ℕ).
          ((get_or (set t.interfaces t.count (entry_of mac ops t.count)) k blank).active ≡ true)
          × ((get_or (set t.interfaces t.count (entry_of mac ops t.count)) k blank).id ≡ k))
        ((==_iff t.count n).0 e)
        (rw
          (get_or-set_self t.interfaces t.count (entry_of mac ops t.count) blank
            (omega (arith, v.sized, room)))
          (refl, refl))
  | inr ne ↦
      rw
        (get_or-set_ne t.interfaces t.count n (entry_of mac ops t.count) blank (==→ne t.count n ne))
        (v.registered n (omega (arith, h, ==→ne t.count n ne)))
]

-- A registration with an address and operations, in a table in which exactly the interfaces below the count
-- are active, each with its own id: the fifth is refused with -1 and changes nothing; any other answers the
-- number of interfaces so far, under which it stands from then on, active and with no addresses set; the
-- interfaces before stay, the first one's operations are the active ones, and the table stays right.
pub driver_register-Registered :
    (mac : List ℕ) (ops : ℕ) (t : Table)
    → ops ≢ 0
    → IsValid t
    → Registered mac ops t (driver_register (some mac) ops t)
unfolding driver_register
driver_register-Registered mac ops t nz v = elim (Bool-cases (leb max_interfaces t.count)) [
  | inl over ↦ rw (ne→== ops 0 nz) (
      rw over (record {
        valid = v;
        full = λ e. refl;
        answer = λ h. ground (arith, over, h);
        next_count = λ h. ground (arith, over, h);
        entry = λ h. absurd (ground (arith, over, h));
        before = λ n h. refl;
        primary = λ e. ground (arith, over, e);
        kept = λ n. refl;
      }))
  | inr room ↦ rw (ne→== ops 0 nz) (
      rw room (record {
        valid = record {
          sized = length-set t.interfaces t.count (entry_of mac ops t.count) ∙ v.sized;
          counted = omega (arith, leb→gt _ _ room);
          registered = λ n h. entry_here mac ops t n v (leb→gt _ _ room) h;
          free = λ n h.
              rw
                (get_or-set_ne t.interfaces t.count n (entry_of mac ops t.count) blank
                  (λ e. omega (arith, h, e)))
                (v.free n (omega (arith, h)));
        };
        full = λ e. ground (arith, room, e);
        answer = λ h. refl;
        next_count = λ h. refl;
        entry = λ h.
            get_or-set_self t.interfaces t.count (entry_of mac ops t.count) blank
              (omega (arith, v.sized, leb→gt _ _ room));
        before = λ n h.
            get_or-set_ne t.interfaces t.count n (entry_of mac ops t.count) blank
              (λ e. omega (arith, h, e));
        primary = λ e. rw e refl;
        kept = λ n. rw (ne→== t.count 0 n) refl;
      }))
]

-- A setter whose change leaves the interface active, on a registered interface of the right table: it
-- answers 0, every getter reads the changed interface there, and what it read before at any other.
pub set_field-get_field {ℓ} :
    {A : Type ℓ} (field : NetInterface → A) (change : NetInterface → NetInterface) (n : ℕ)
    (t : Table)
    → IsValid t
    → n < t.count
    → (change (get_or t.interfaces n blank)).active ≡ true
    → ((set_field change n t).0 ≡ pos 0)
      × (get_field field n (set_field change n t).1
          ≡ (pos 0, some (field (change (get_or t.interfaces n blank)))))
      × ((k : ℕ) → k ≢ n → get_field field k (set_field change n t).1 ≡ get_field field k t)
unfolding set_field get_field
set_field-get_field field change n t v h on =
    rw (gt→leb max_interfaces n (omega (arith, h, v.counted))) (
      rw (v.registered n h).0 (
        refl,
        (rw
            (get_or-set_self t.interfaces n (change (get_or t.interfaces n blank)) blank
              (omega (arith, h, v.counted, v.sized)))
            (rw on refl)),
        λ k ne.
            rw
              (get_or-set_ne t.interfaces n k (change (get_or t.interfaces n blank)) blank
                (λ e. ne (sym e)))
              refl,
      ))
