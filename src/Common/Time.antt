-- ===== src/Common/Time.antt =====
-- Times of src/common/time.py. A `datetime` is naive, or it has a fixed offset from UTC, in
-- seconds, and stands for an instant; both count microseconds from 1970 on.
use suky_tradin_bot.Base.{ℕ, ◌≡◌, Bool, true, false, not, String, arith, ◌==◌, ltb}
use suky_tradin_bot.Base.Int.{ℤ, pos, negsuc, sub_ℕ}
use suky_tradin_bot.Common.Errors.{Result, ok, ◌>>◌, reject_if}

pub data Datetime : Type 0 where
  naive : ℕ → Datetime
  aware : ℤ → ℕ → Datetime

abbrev pub is_naive : Datetime → Bool
is_naive (naive _) = true
is_naive (aware _ _) = false

abbrev has_offset : Datetime → Bool
has_offset (naive _) = false
has_offset (aware (pos n) _) = not (n == 0)
has_offset (aware (negsuc _) _) = true

-- `require_utc`
unfoldable pub require_utc : Datetime → String → Result (Unit {0})
require_utc t field_name = do reject_if (is_naive t) field_name; reject_if (has_offset t) field_name

-- `==` of two datetimes: a naive one differs from every aware one.
abbrev pub same_time : Datetime → Datetime → Bool
same_time (naive a) (naive b) = a == b
same_time (aware _ a) (aware _ b) = a == b
same_time _ _ = false

pub same_time_refl : (t : Datetime) → same_time t t ≡ true
same_time_refl (naive a) = ground arith
same_time_refl (aware _ a) = ground arith

-- The name of the field only matters for the message.
pub require_utc_any :
    (t : Datetime) (f g : String) → require_utc t f ≡ ok tt → require_utc t g ≡ ok tt
unfolding require_utc
require_utc_any t f g h = ground arith

-- `<` of two datetimes of one kind. (Python raises for a naive and an aware one; where the code
-- compares times that have not passed `require_utc`, the model tests for that first.)
abbrev pub earlier : Datetime → Datetime → Bool
earlier (naive a) (naive b) = ltb a b
earlier (aware _ a) (aware _ b) = ltb a b
earlier _ _ = false

-- `end - start` in microseconds. (Python raises for a naive and an aware datetime; the code
-- subtracts times that have passed `require_utc`.)
abbrev pub elapsed : Datetime → Datetime → ℤ
elapsed (naive a) (naive b) = sub_ℕ b a
elapsed (aware _ a) (aware _ b) = sub_ℕ b a
elapsed _ _ = pos 0
