-- ===== src/Common/Instants.antt =====
-- Lemmas on the instants of datetimes (src/common/time.py).
use suky_tradin_bot.Base.{◌≡◌, refl, true, false, arith}
use suky_tradin_bot.Common.Time.{Datetime, naive, aware, earlier, same_time, is_naive}

-- Two datetimes are one instant, for times of either kind.
pub same_time_trans :
    (a b c : Datetime) → same_time a b ≡ true → same_time b c ≡ true → same_time a c ≡ true
same_time_trans (naive a) (naive b) (naive c) h k = ground arith
same_time_trans (aware _ a) (aware _ b) (aware _ c) h k = ground arith
same_time_trans (naive a) (aware _ b) c h k = ground arith
same_time_trans (aware _ a) (naive b) c h k = ground arith
same_time_trans (naive a) (naive b) (aware _ c) h k = ground arith
same_time_trans (aware _ a) (aware _ b) (naive c) h k = ground arith

pub same_time_sym : (a b : Datetime) → same_time a b ≡ same_time b a
same_time_sym (naive a) (naive b) = ground arith
same_time_sym (aware _ a) (aware _ b) = ground arith
same_time_sym (naive a) (aware _ b) = refl
same_time_sym (aware _ a) (naive b) = refl

pub not_earlier : (a b : Datetime) → earlier a b ≡ true → same_time a b ≡ false
not_earlier (naive a) (naive b) h = ground arith
not_earlier (aware _ a) (aware _ b) h = ground arith
not_earlier (naive a) (aware _ b) h = ground arith
not_earlier (aware _ a) (naive b) h = ground arith

-- Of two times in UTC that differ, one is the earlier.
pub earlier_total :
    (a b : Datetime)
    → is_naive a ≡ false
    → is_naive b ≡ false
    → earlier a b ≡ false
    → same_time a b ≡ false
    → earlier b a ≡ true
earlier_total (aware _ a) (aware _ b) h k e s = ground arith
earlier_total (naive a) b h k e s = ground arith
earlier_total (aware _ a) (naive b) h k e s = ground arith

pub earlier_trans :
    (a b c : Datetime) → earlier a b ≡ true → earlier b c ≡ true → earlier a c ≡ true
earlier_trans (naive a) (naive b) (naive c) h k = ground arith
earlier_trans (aware _ a) (aware _ b) (aware _ c) h k = ground arith
earlier_trans (naive a) (aware _ b) c h k = ground arith
earlier_trans (aware _ a) (naive b) c h k = ground arith
earlier_trans (naive a) (naive b) (aware _ c) h k = ground arith
earlier_trans (aware _ a) (aware _ b) (naive c) h k = ground arith
