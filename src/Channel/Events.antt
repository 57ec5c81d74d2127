-- ===== src/Channel/Events.antt =====
-- The event masks that the `enable` and `disable` functions can make, and what they report.
use epoll.Base.{
  ℕ, zero, suc, ◌≡◌, ◌<◌, bit_or, refl, Bool, true, false, not, ltb, arith, ltb→lt, ==_iff, ◌==◌,
  Bool-cases, ◌≤◌, if◌then◌else◌, inl, inr, ◌+◌,
}
use epoll.Channel.{has, without, read_event, write_event}

-- A test that passes from `low` on for `count` numbers.
abbrev passes : (ℕ → Bool) → ℕ → ℕ → Bool
passes test low zero = true
passes test low (suc count) =
    let rest = passes test (suc low) count in if test low then rest else false

passes_lem :
    (test : ℕ → Bool) (low count ev : ℕ)
    → passes test low count ≡ true
    → low ≤ ev
    → ev < low + count
    → test ev ≡ true
passes_lem test low zero ev h above below = absurd (omega arith)
passes_lem test low (suc count) ev h above below = elim (Bool-cases (low == ev)) [
  | inl same ↦ rw (← (==_iff low ev).0 same) (ground (arith, h))
  | inr other ↦ passes_lem test (suc low) count ev (ground (arith, h)) (ground arith) (omega arith)
]

mask_lem : (test : ℕ → Bool) (ev : ℕ) → passes test 0 8 ≡ true → ev < 8 → test ev ≡ true
mask_lem test ev h lt = passes_lem test 0 8 ev h (omega arith) lt

-- POLLIN, POLLPRI and POLLOUT only.
abbrev pub is_mask : ℕ → Bool
is_mask ev = ltb ev 8

abbrev bool_eq : Bool → Bool → Bool
bool_eq true b = b
bool_eq false b = not b

bool_eq_lem : (a b : Bool) → bool_eq a b ≡ true → a ≡ b
bool_eq_lem a b h = ground arith

-- Switching one direction on or off is seen in that direction and leaves the other alone.
pub record Switched (ev on_write off_write on_read off_read : ℕ) : Type 0 where
  pub on_write_mask : on_write < 8
  pub off_write_mask : off_write < 8
  pub on_read_mask : on_read < 8
  pub off_read_mask : off_read < 8
  pub on_write_lem : has on_write write_event ≡ true
  pub off_write_lem : has off_write write_event ≡ false
  pub on_read_lem : has on_read read_event ≡ true
  pub off_read_lem : has off_read read_event ≡ false
  pub on_write_reads : has on_write read_event ≡ has ev read_event
  pub off_write_reads : has off_write read_event ≡ has ev read_event
  pub on_read_writes : has on_read write_event ≡ has ev write_event
  pub off_read_writes : has off_read write_event ≡ has ev write_event

pub switch_lem :
    (ev : ℕ)
    → ev < 8
    → Switched ev
        (bit_or ev write_event)
        (without ev write_event)
        (bit_or ev read_event)
        (without ev read_event)
switch_lem ev h = record {
  on_write_mask = ltb→lt _ 8 (mask_lem (λ e. ltb (bit_or e write_event) 8) ev refl h);
  off_write_mask = ltb→lt _ 8 (mask_lem (λ e. ltb (without e write_event) 8) ev refl h);
  on_read_mask = ltb→lt _ 8 (mask_lem (λ e. ltb (bit_or e read_event) 8) ev refl h);
  off_read_mask = ltb→lt _ 8 (mask_lem (λ e. ltb (without e read_event) 8) ev refl h);
  on_write_lem = mask_lem (λ e. has (bit_or e write_event) write_event) ev refl h;
  off_write_lem =
      bool_eq_lem _ false
        (mask_lem (λ e. bool_eq (has (without e write_event) write_event) false) ev refl h);
  on_read_lem = mask_lem (λ e. has (bit_or e read_event) read_event) ev refl h;
  off_read_lem =
      bool_eq_lem _ false
        (mask_lem (λ e. bool_eq (has (without e read_event) read_event) false) ev refl h);
  on_write_reads = bool_eq_lem _ _ (
      mask_lem (λ e. bool_eq (has (bit_or e write_event) read_event) (has e read_event)) ev refl h);
  off_write_reads = bool_eq_lem _ _ (
      mask_lem (λ e. bool_eq (has (without e write_event) read_event) (has e read_event)) ev refl
        h);
  on_read_writes = bool_eq_lem _ _ (
      mask_lem (λ e. bool_eq (has (bit_or e read_event) write_event) (has e write_event)) ev refl
        h);
  off_read_writes = bool_eq_lem _ _ (
      mask_lem (λ e. bool_eq (has (without e read_event) write_event) (has e write_event)) ev refl
        h);
}
