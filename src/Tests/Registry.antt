-- ===== src/Tests/Registry.antt =====
-- The strategy registry's theorems at concrete inputs.
use suky_tradin_bot.Base.{◌≡◌, refl, ℕ, true, none, [], ◌∷◌}
use suky_tradin_bot.Base.Int.{pos, leb_ℤ}
use suky_tradin_bot.Float.Fixed.{Fixed}
use suky_tradin_bot.Common.Dict.{Dict}
use suky_tradin_bot.Common.Errors.{ok}
use suky_tradin_bot.Strategy.Registry.{Strategy, resolve, select, matches, resolve_alone}
use suky_tradin_bot.Tests.Data.{quarter}

abbrev bull : Strategy ℕ ℕ Fixed
bull = record {
  strategy_id = "bull";
  supports = λ n. leb_ℤ n (pos 1);
  allocate = λ _ _. ok quarter;
}

abbrev bear : Strategy ℕ ℕ Fixed
bear = record {
  strategy_id = "bear";
  supports = λ n. leb_ℤ (pos 2) n;
  allocate = λ _ _. ok quarter;
}

abbrev registered : Dict (Strategy ℕ ℕ Fixed)
registered = ("bull", bull) ∷ []

abbrev both : Dict (Strategy ℕ ℕ Fixed)
both = ("bull", bull) ∷ ("bear", bear) ∷ []

resolved : resolve (pos 3) none both ≡ ok bear
unfolding resolve select matches
resolved = refl

resolve_alone_example : (matches (pos 3) both ≡ bear ∷ []) × (bear.supports (pos 3) ≡ true)
resolve_alone_example = resolve_alone (pos 3) both bear resolved
