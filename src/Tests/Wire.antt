-- ===== src/Tests/Wire.antt =====
-- A codec at the fixed-point numbers, and the round trips at concrete records.
use suky_tradin_bot.Risk.Service.{decision_of}
use suky_tradin_bot.Common.Text.{is_blank}
use suky_tradin_bot.Execution.Order.{
  check_order_intent, OrderIntent, buy, market, check_limit_price, day, check_exits,
}
use Prim.Native.Char.{code}
use Prim.Native.String.{String}
use suky_tradin_bot.Base.{
  ◌≡◌, refl, ap, ℕ, zero, suc, ◌+◌, ◌*◌, ◌/◌, ◌==◌, if◌then◌else◌, arith, true, [], none, some,
}
use suky_tradin_bot.Base.Int.{ℤ, pos, negsuc}
use suky_tradin_bot.Common.Errors.{Result, ok}
use suky_tradin_bot.Common.Time.{Datetime, naive, aware, require_utc}
use suky_tradin_bot.Execution.Wire.{to_dict, from_dict, from_dict-to_dict}
use suky_tradin_bot.Tests.Data.{quarter, quarter-IsChecked, number, noon}
use suky_tradin_bot.Risk.Service.{build_reasoning}
use suky_tradin_bot.Risk.Decision.{approved, check_execution_decision}
use suky_tradin_bot.Common.Json.{get, Codec, IsCodec}
use suky_tradin_bot.Float.Fixed.{fixed_float, Fixed, fixed}

-- A number as a row of ones that a zero ends.
tally : ℕ → String → String
tally zero s = String.◌∷◌ "0" s
tally (suc n) s = String.◌∷◌ "1" (tally n s)

read : String → ℕ × String
read String.[] = (0, "")
read (String.◌∷◌ c s) = let r = read s in if code c == 49 then (suc r.0, r.1) else (0, s)

read-tally : (n : ℕ) (s : String) → read (tally n s) ≡ (n, s)
unfolding read tally
read-tally zero s = refl
read-tally (suc n) s = ap (λ r. (suc r.0, r.1)) (read-tally n s)

pub write : Datetime → String
write (naive n) = tally 0 (tally 0 (tally n ""))
write (aware (pos k) n) = tally 1 (tally k (tally n ""))
write (aware (negsuc k) n) = tally 2 (tally k (tally n ""))

abbrev datetime_of : ℕ → ℕ → ℕ → Datetime
datetime_of zero k n = naive n
datetime_of (suc zero) k n = aware (pos k) n
datetime_of (suc (suc _)) k n = aware (negsuc k) n

pub parse : String → Result Datetime
parse s =
    let kind = read s in
    let offset = read kind.1 in ok (datetime_of kind.0 offset.0 (read offset.1).0)

parse_lem : (i k n : ℕ) → parse (tally i (tally k (tally n ""))) ≡ ok (datetime_of i k n)
unfolding parse
parse_lem i k n =
    rw (read-tally i (tally k (tally n "")), read-tally k (tally n ""), read-tally n "") refl

parse-write : (t : Datetime) → parse (write t) ≡ ok t
unfolding write
parse-write (naive n) = parse_lem 0 0 n
parse-write (aware (pos k) n) = parse_lem 1 k n
parse-write (aware (negsuc k) n) = parse_lem 2 k n

-- A microsecond is a thousand billionths of a second.
abbrev seconds : ℤ → Fixed
seconds (pos n) = fixed (pos (n * 1000))
seconds (negsuc n) = fixed (negsuc (n * 1000 + 999))

abbrev microseconds : Fixed → ℤ
microseconds (fixed (pos n)) = pos (n / 1000)
microseconds (fixed (negsuc n)) = negsuc (n / 1000)

microseconds-seconds : (d : ℤ) → microseconds (seconds d) ≡ d
microseconds-seconds (pos n) = ap pos (omega arith)
microseconds-seconds (negsuc n) = ap negsuc (omega arith)

abbrev pub codec : Codec Fixed
codec = record {
  isoformat = write;
  fromisoformat = parse;
  total_seconds = seconds;
  of_seconds = microseconds;
}

pub codec-IsCodec : IsCodec codec
codec-IsCodec = record { read_back = parse-write; seconds_back = λ d _. microseconds-seconds d }

-- A routed order for a quarter of the portfolio.
abbrev order : OrderIntent Fixed
order = record {
  timestamp = noon;
  symbol = "SPY";
  side = buy;
  quantity = pos 37;
  order_type = market;
  limit_price = none;
  time_in_force = day;
  reference_price = number 400 0;
  stop_loss = some (number 390 0);
  take_profit = none;
  idempotency_key = "SPY-1";
  reasoning = "routed";
  execution_reference = decision_of quarter true (approved, number 25 2) [];
  metadata = [];
}

reference_checked : check_execution_decision order.execution_reference ≡ ok tt
unfolding check_execution_decision require_utc is_blank build_reasoning
reference_checked = refl

order_checked : check_order_intent order ≡ ok tt
unfolding check_order_intent require_utc is_blank check_limit_price check_exits
order_checked = refl

from_dict-to_dict_example : from_dict codec (get (to_dict codec order)) ≡ ok order
from_dict-to_dict_example =
    from_dict-to_dict codec order codec-IsCodec order_checked reference_checked quarter-IsChecked
      (omega arith)
