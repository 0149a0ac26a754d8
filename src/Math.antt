-- ===== src/Math.antt =====
-- pkg/math: comparison helpers (compare.go) and the division of a byte range into segments
-- (segments.go). `All` sends the segments over a channel; here they are the list that is sent.
pub mod Align
pub mod Cover
pub mod Step
use peerd_oci.Prelude.{
  ℕ, zero, suc, List, [], ◌∷◌, Bool, if◌then◌else◌, Option, none, some, Error, Outcome, ok, err,
  panic, blocked, ◌>>=◌, step_not_power_of_two,
}
use peerd_oci.Int64.{ℤ, pos, add64, sub64, mul64, div64, and64, lt64}

unfoldable pub max64 : ℤ → ℤ → ℤ
max64 x y = if lt64 y x then x else y

unfoldable pub min64 : ℤ → ℤ → ℤ
min64 x y = if lt64 x y then x else y

-- `Min`, on `int`.
unfoldable pub min_int : ℤ → ℤ → ℤ
min_int x y = if lt64 x y then x else y

pub record Segments : Type 0 where
  pub offset : ℤ
  pub step : ℤ
  pub size : ℤ

pub record Segment : Type 0 where
  pub index : ℤ
  pub offset : ℤ
  pub count : ℤ

unfoldable pub new_segments : ℤ → ℤ → ℤ → ℤ → Outcome Segments
new_segments offset step count size =
    if lt64 (pos 0) (and64 step (sub64 step (pos 1)))
    then err step_not_power_of_two
    else ok (record { offset = offset; step = step; size = min64 (add64 offset count) size })

-- `x / align * align`; a division by zero panics.
unfoldable pub align_down : ℤ → ℤ → Outcome ℤ
align_down x align = elim (div64 x align) [ none ↦ panic | some q ↦ ok (mul64 q align) ]

-- One round of the loop of `All`: the segment at `i`, which is sent if it is not empty.
unfoldable pub segment_at : Segments → ℤ → Segment
unfolding max64 min64
segment_at r i =
    let abs_offset = max64 i r.offset in
    record {
      index = i;
      offset = sub64 abs_offset i;
      count = sub64 (min64 (add64 i r.step) r.size) abs_offset;
    }

-- The loop `for i := …; i < r.size; i += r.step`; without fuel it goes on.
unfoldable pub all_from : ℕ → Segments → ℤ → Outcome (List Segment)
all_from zero r i = blocked
all_from (suc fuel) r i =
    let round = (do
      rest ← all_from fuel r (add64 i r.step)
      ok (if lt64 (pos 0) (segment_at r i).count then segment_at r i ∷ rest else rest)) in
    if lt64 i r.size then round else ok []

unfoldable pub all : ℕ → Segments → Outcome (List Segment)
all fuel r = do i ← align_down r.offset r.step; all_from fuel r i
