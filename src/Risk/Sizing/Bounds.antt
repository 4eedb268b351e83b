-- ===== src/Risk/Sizing/Bounds.antt =====
-- The sizing rule never enlarges a request and keeps within every headroom.
use suky_tradin_bot.Risk.Exposure.{
  held_in_all, held_in_ticker, held_in_sector, ticker_value_lem, sector_value_lem,
  gross_exposure_lem,
}
use suky_tradin_bot.Common.Dict.{lookup}
use suky_tradin_bot.Base.{
  ◌≡◌, ◌⊎◌, true, false, Bool, refl, inr, if◌then◌else◌, inl, none, some, Option, String, List, [],
  ◌∷◌, arith, All,
}
use suky_tradin_bot.Float.{Float, IsFloat, ◌≼◌, IsUnit, zero_f, min_f, max_f}
use suky_tradin_bot.Float.Order
use suky_tradin_bot.Strategy.Decision.{StrategyDecision}
use suky_tradin_bot.Risk.Portfolio.{PortfolioState}
use suky_tradin_bot.Risk.Sizing.{
  ExposureCapacitySizing, headroom, min_list, sector_headroom, headrooms, apply,
}

module _ {F : Type 0} ⦃fl : Float F⦄ where
  -- What a cap leaves beside the value that is held, as a share of the equity.
  abbrev pub room : F → F → F → F
  room cap value equity =
      if fl.le equity zero_f then zero_f else max_f zero_f (fl.sub cap (fl.div value equity))

  unfoldable pub sector_limit : ExposureCapacitySizing F → PortfolioState F → Option String → List F
  sector_limit r p none = []
  sector_limit r p (some sector) = room r.sector_cap (held_in_sector sector p) p.equity ∷ []

  -- The request and the room under each cap.
  unfoldable pub limits :
      ExposureCapacitySizing F → StrategyDecision F → F → PortfolioState F → List F
  limits r d requested p =
      requested
      ∷ room r.gross_cap (held_in_all p) p.equity
      ∷ room r.ticker_cap (held_in_ticker d.symbol p) p.equity
      ∷ sector_limit r p (lookup d.symbol r.sector_map)

  unfoldable pub IsIn : F → List F → Type 0
  IsIn x [] = false ≡ true
  IsIn x (y ∷ ys) = (x ≡ y) ⊎ IsIn x ys

module _ {F : Type 0} ⦃fl : Float F⦄ (laws : IsFloat F) where
  open laws use {le_trans, le_numbers}

  min_list-le : (x : F) (ys : List F) → x ≼ x → min_list x ys ≼ x
  unfolding min_list
  min_list-le x [] h = h
  min_list-le x (y ∷ ys) h =
      let first = Order.min_f-le_left laws x y h in
      le_trans _ _ _ (min_list-le (min_f x y) ys (le_numbers _ _ first).0) first

  min_list-le-All :
      (x : F) (ys : List F) → x ≼ x → All (λ y. y ≼ y) ys → All (λ y. min_list x ys ≼ y) ys
  unfolding min_list
  min_list-le-All x [] h n = tt
  min_list-le-All x (y ∷ ys) h (ny, n) =
      let first = Order.min_f-le_left laws x y h in
      let number = (le_numbers _ _ first).0 in
      (
        le_trans _ _ _ (min_list-le (min_f x y) ys number) (Order.min_f-le_right laws x y h ny),
        min_list-le-All (min_f x y) ys number n,
      )

  le-min_list : (z x : F) (ys : List F) → z ≼ x → All (λ y. z ≼ y) ys → z ≼ min_list x ys
  unfolding min_list
  le-min_list z x [] h n = h
  le-min_list z x (y ∷ ys) h (ny, n) =
      le-min_list z (min_f x y) ys (Order.le-min_f laws z x y h (inl ny)) n

  pub headroom_nonneg : (cap value equity : F) → zero_f ≼ headroom cap value equity
  unfolding headroom
  headroom_nonneg cap value equity = ground (
    arith,
    Order.zero_self laws,
    Order.le-max_f laws zero_f (fl.sub cap (fl.div value equity)) (Order.zero_self laws),
  )

  sector_headroom_nonneg :
      (r : ExposureCapacitySizing F) (p : PortfolioState F) (o : Option String)
      → All (λ h. zero_f ≼ h) (sector_headroom r p o)
  unfolding sector_headroom
  sector_headroom_nonneg r p none = tt
  sector_headroom_nonneg r p (some sector) = (headroom_nonneg _ _ _, tt)

  headrooms_nonneg :
      (r : ExposureCapacitySizing F) (d : StrategyDecision F) (p : PortfolioState F)
      → All (λ h. zero_f ≼ h) (headrooms r d p)
  unfolding headrooms
  headrooms_nonneg r d p =
      (headroom_nonneg _ _ _, (headroom_nonneg _ _ _, sector_headroom_nonneg r p _))

  numbers : (hs : List F) → All (λ h. zero_f ≼ h) hs → All (λ h. h ≼ h) hs
  numbers [] n = tt
  numbers (h ∷ hs) (p, n) = ((le_numbers _ _ p).1, numbers hs n)

  chosen :
      (b : Bool) (m x y : F) (rest : Type 0)
      → (m ≡ (if b then y else x)) ⊎ rest
      → (m ≡ x) ⊎ (m ≡ y) ⊎ rest
  chosen b m x y rest (inr h) = inr (inr h)
  chosen true m x y rest (inl e) = inr (inl e)
  chosen false m x y rest (inl e) = inl e

  min_list-IsIn : (x : F) (ys : List F) → IsIn (min_list x ys) (x ∷ ys)
  unfolding min_list IsIn
  min_list-IsIn x [] = inl refl
  min_list-IsIn x (y ∷ ys) =
      chosen (fl.lt y x) (min_list (min_f x y) ys) x y (IsIn (min_list (min_f x y) ys) ys)
        (min_list-IsIn (min_f x y) ys)

  sector_limit_lem :
      (r : ExposureCapacitySizing F) (p : PortfolioState F) (o : Option String)
      → sector_limit r p o ≡ sector_headroom r p o
  unfolding sector_limit sector_headroom headroom
  sector_limit_lem r p none = refl
  sector_limit_lem r p (some sector) = rw (sector_value_lem sector p) refl

  limits_lem :
      (r : ExposureCapacitySizing F) (d : StrategyDecision F) (requested : F) (p : PortfolioState F)
      → limits r d requested p ≡ requested ∷ headrooms r d p
  unfolding limits headrooms headroom
  limits_lem r d requested p =
      rw
        (
          gross_exposure_lem p,
          ticker_value_lem d.symbol p,
          sector_limit_lem r p (lookup d.symbol r.sector_map),
        )
        refl

  -- For a request in [0, 1], the sized allocation is in [0, 1], it is at most the request and every limit, and it is
  -- one of them: the request, and what the caps of the whole portfolio, of the symbol's ticker and,
  -- for a symbol with a sector, of the sector leave beside the values held there.
  pub apply_bounds :
      (r : ExposureCapacitySizing F) (d : StrategyDecision F) (requested : F) (p : PortfolioState F)
      → IsUnit requested
      → IsUnit (apply r d requested p)
        × (apply r d requested p ≼ requested)
        × All (λ h. apply r d requested p ≼ h) (limits r d requested p)
        × IsIn (apply r d requested p) (limits r d requested p)
  unfolding apply
  apply_bounds r d requested p u =
      let number = Order.IsUnit-self laws requested u in
      let free = headrooms_nonneg r d p in
      let below = min_list-le requested (headrooms r d p) number in
      rw (limits_lem r d requested p) (
        Order.IsUnit-of_le laws _ _ (le-min_list zero_f requested _ u.0 free) below u,
        below,
        (below, min_list-le-All requested (headrooms r d p) number (numbers _ free)),
        min_list-IsIn requested (headrooms r d p),
      )
