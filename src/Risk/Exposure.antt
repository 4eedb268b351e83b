-- ===== src/Risk/Exposure.antt =====
-- What a portfolio (src/risk/models.py) holds of a kind, as one pass over its positions.
use suky_tradin_bot.Base.{
  Bool, true, String, str_eq, List, [], ◌∷◌, ◌≡◌, refl, if◌then◌else◌, Bool-cases, inl, inr,
}
use suky_tradin_bot.Float.{Float, zero_f, sum_from}
use suky_tradin_bot.Risk.Portfolio.{
  Position, PortfolioState, keep, market_values, ticker_value, sector_value, gross_exposure,
}

module _ {F : Type 0} ⦃fl : Float F⦄ where
  -- The market values of the positions that are in, added up from `total`.
  unfoldable pub held : (Position F → Bool) → F → List (Position F) → F
  held is_in total [] = total
  held is_in total (p ∷ ps) = held is_in (if is_in p then fl.add total p.market_value else total) ps

  -- The market value that a portfolio holds of a ticker, of a sector, and in all.
  abbrev pub held_in_ticker : String → PortfolioState F → F
  held_in_ticker ticker s = held (λ p. str_eq p.ticker ticker) zero_f s.positions

  abbrev pub held_in_sector : String → PortfolioState F → F
  held_in_sector sector s = held (λ p. str_eq p.sector sector) zero_f s.positions

  abbrev pub held_in_all : PortfolioState F → F
  held_in_all s = held (λ p. true) zero_f s.positions

  kept :
      (is_in : Position F → Bool) (total : F) (ps : List (Position F))
      → sum_from total (market_values (keep is_in ps)) ≡ held is_in total ps
  unfolding sum_from held
  kept is_in total [] = refl
  kept is_in total (p ∷ ps) = elim (Bool-cases (is_in p)) [
    | inl e ↦ rw (e, kept is_in (fl.add total p.market_value) ps) refl
    | inr e ↦ rw (e, kept is_in total ps) refl
  ]

  whole :
      (total : F) (ps : List (Position F))
      → sum_from total (market_values ps) ≡ held (λ p. true) total ps
  unfolding sum_from held
  whole total [] = refl
  whole total (p ∷ ps) = whole (fl.add total p.market_value) ps

  pub ticker_value_lem :
      (ticker : String) (s : PortfolioState F) → ticker_value ticker s ≡ held_in_ticker ticker s
  unfolding ticker_value
  ticker_value_lem ticker s = kept (λ p. str_eq p.ticker ticker) zero_f s.positions

  pub sector_value_lem :
      (sector : String) (s : PortfolioState F) → sector_value sector s ≡ held_in_sector sector s
  unfolding sector_value
  sector_value_lem sector s = kept (λ p. str_eq p.sector sector) zero_f s.positions

  pub gross_exposure_lem : (s : PortfolioState F) → gross_exposure s ≡ held_in_all s
  unfolding gross_exposure
  gross_exposure_lem s = whole zero_f s.positions
