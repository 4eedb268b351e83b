-- ===== src/Backtest/Holdings.antt =====
-- The portfolio engine (src/backtest/portfolio.py) against a ledger of shares per symbol.
use mathlib.Core.Path.{subst}
use suky_tradin_bot.Base.Int.{ℤ, pos, ◌-ℤ◌, ◌+ℤ◌, ltb_ℤ, negsuc}
use suky_tradin_bot.Common.Dict.{lookup, insert, lookup-insert, erase}
use suky_tradin_bot.Common.Errors.{ok, Result, err, bind-eq-ok, err≢ok}
use suky_tradin_bot.Common.Entries.{
  Entries, Entries-insert, Entries-lookup, Entries-erase, lookup-erase,
}
use suky_tradin_bot.Backtest.Trade.{
  TradeRecord, OpenPosition, check_open_position, check_trade_record,
}
use suky_tradin_bot.Base.{
  Option, String, ◌≡◌, if◌then◌else◌, str_eq, inl, some, inr, none, refl, ◌∙◌, arith, Bool-cases,
  Bool, sym, ap, true, eq_iff, false,
}
use suky_tradin_bot.Float.{Float, of_int}
use suky_tradin_bot.Backtest.Portfolio.{
  PortfolioEngine, Buy, Sale, open_or_add, reduce_or_close, open_quantity, put, keep_rest,
  settle_sale, bought, trade_of, min_ℤ, reduce_found, shares, stored,
}

-- Under a test for equality one of the two may stand for the other.
if-same :
    (k t : String) (a : String → ℤ) (c : ℤ)
    → (if str_eq k t then a k else c) ≡ (if str_eq k t then a t else c)
if-same k t a c = elim (Bool-cases (str_eq k t)) [
  | inl s ↦ rw s (ap a ((eq_iff k t).0 s))
  | inr s ↦ rw s refl
]

zero-add_ℤ : (a : ℤ) → a ≡ pos 0 +ℤ a
zero-add_ℤ (pos n) = ground arith
zero-add_ℤ (negsuc n) = ground arith

-- What a sale leaves is never negative.
rest_lem :
    (q n : ℤ) → (if ltb_ℤ (pos 0) (q -ℤ min_ℤ n q) then q -ℤ min_ℤ n q else pos 0) ≡ q -ℤ min_ℤ n q
rest_lem (pos q) (pos n) = ground arith
rest_lem (pos q) (negsuc n) = ground arith
rest_lem (negsuc q) (pos n) = ground arith
rest_lem (negsuc q) (negsuc n) = ground arith

ok-eq : {A : Type 0} {x y : A} → ok x ≡ ok y → x ≡ y
ok-eq h = cc

module _ {F : Type 0} ⦃fl : Float F⦄ where
  -- A checked position under its own symbol.
  abbrev IsHeld : String → OpenPosition F → Type 0
  IsHeld symbol p = (p.symbol ≡ symbol) × (check_open_position p ≡ ok tt)

  -- Every symbol has one position at most, which is its own and holds at least one share.
  abbrev pub IsLongOnly : PortfolioEngine F → Type 0
  IsLongOnly e = Entries IsHeld e.positions

  shares-if :
      (b : Bool) (p : OpenPosition F) (o : Option (OpenPosition F))
      → shares (if b then some p else o) ≡ (if b then p.quantity else shares o)
  unfolding shares
  shares-if true p o = refl
  shares-if false p o = refl

  shares-erase :
      (b : Bool) (o : Option (OpenPosition F))
      → shares (if b then none else o) ≡ (if b then pos 0 else shares o)
  unfolding shares
  shares-erase true o = refl
  shares-erase false o = refl

  -- What a store that does not raise leaves.
  stored_ok :
      (e : PortfolioEngine F) (t : String) (p : OpenPosition F) (c : Result (Unit {0}))
      (f : PortfolioEngine F)
      → stored e t p c ≡ (f, ok tt)
      → (c ≡ ok tt) × (f ≡ record e { positions = insert t p e.positions })
  unfolding stored
  stored_ok e t p (err x) f h = absurd (err≢ok (ap (λ y. y.1) h))
  stored_ok e t p (ok u) f h = (refl, sym (ap (λ y. y.0) h))

  put-Held :
      (e : PortfolioEngine F) (t : String) (p : OpenPosition F) (f : PortfolioEngine F)
      → IsLongOnly e
      → p.symbol ≡ t
      → put e t p ≡ (f, ok tt)
      → IsLongOnly f
        × ((u : String)
            → open_quantity f u ≡ (if str_eq t u then p.quantity else open_quantity e u))
  unfolding put open_quantity
  put-Held e t p f long own h =
      let (checked, left) = stored_ok e t p (check_open_position p) f h in
      (
        subst (λ g. IsLongOnly g) (sym left)
            (Entries-insert IsHeld e.positions t p (own, checked) long),
        λ u.
            ap (λ g. shares (lookup u g.positions)) left
            ∙ ap shares (lookup-insert t u p e.positions)
            ∙ shares-if (str_eq t u) p (lookup u e.positions),
      )

  bought_own :
      (o : Option (OpenPosition F)) (b : Buy F)
      → ((bought o b).symbol ≡ b.symbol) × ((bought o b).quantity ≡ shares o +ℤ b.quantity)
  unfolding bought shares
  bought_own none b = (refl, zero-add_ℤ b.quantity)
  bought_own (some p) b = (refl, refl)

  -- An `open_or_add` that does not raise adds its quantity to the shares of its symbol, and leaves
  -- a long-only portfolio.
  pub open_or_add-Held :
      (e : PortfolioEngine F) (b : Buy F) (f : PortfolioEngine F)
      → IsLongOnly e
      → open_or_add e b ≡ (f, ok tt)
      → IsLongOnly f
        × ((t : String)
            → open_quantity f t
              ≡ (if str_eq b.symbol t then open_quantity e t +ℤ b.quantity else open_quantity e t))
  unfolding open_or_add open_quantity
  open_or_add-Held e b f long done =
      let (own, total) = bought_own (lookup b.symbol e.positions) b in
      let paid = record e { cash = fl.sub e.cash (fl.mul b.fill_price (of_int b.quantity)) } in
      let (held, counts) =
        put-Held paid b.symbol (bought (lookup b.symbol e.positions) b) f long own done in
      (
        held,
        λ t.
            counts t
            ∙ ap (λ n. if str_eq b.symbol t then n else open_quantity e t) total
            ∙ if-same b.symbol t (λ u. open_quantity e u +ℤ b.quantity) (open_quantity e t),
      )

  -- What is left of a position, on both branches of the test for a rest.
  kept-Held :
      (b : Bool) (e : PortfolioEngine F) (t : String) (p : OpenPosition F) (m : ℤ)
      (f : PortfolioEngine F)
      → IsLongOnly e
      → p.symbol ≡ t
      → (if b
          then put e t (record p { quantity = m })
          else (record e { positions = erase t e.positions }, ok tt))
        ≡ (f, ok tt)
      → IsLongOnly f
        × ((u : String)
            → open_quantity f u
              ≡ (if str_eq t u then (if b then m else pos 0) else open_quantity e u))
  unfolding open_quantity
  kept-Held true e t p m f long own h = put-Held e t (record p { quantity = m }) f long own h
  kept-Held false e t p m f long own h = (
    subst (λ g. IsLongOnly g) (ap (λ y. y.0) h) (Entries-erase IsHeld e.positions t long),
    λ u.
        ap (λ g. shares (lookup u g.positions)) (sym (ap (λ y. y.0) h))
        ∙ ap shares (lookup-erase IsHeld e.positions t u long)
        ∙ shares-erase (str_eq t u) (lookup u e.positions),
  )

  settle_sale_ok :
      (e : PortfolioEngine F) (p : OpenPosition F) (s : Sale F) (sold : ℤ) (c : Result (Unit {0}))
      (f : PortfolioEngine F) (r : TradeRecord F)
      → settle_sale e p s sold c ≡ (f, ok r)
      → (keep_rest e s.symbol p (p.quantity -ℤ sold) ≡ (f, ok tt)) × (trade_of p s sold ≡ r)
  unfolding settle_sale
  settle_sale_ok e p s sold (err x) f r h = absurd (err≢ok (ap (λ y. y.1) h))
  settle_sale_ok e p s sold (ok u) f r h =
      let kept = keep_rest e s.symbol p (p.quantity -ℤ sold) in
      let (v, fine, same) = bind-eq-ok kept.1 (λ _. ok (trade_of p s sold)) (ap (λ y. y.1) h) in
      (λ i. (ap (λ y. y.0) h i, fine i), ok-eq same)

  reduce_found-Held :
      (e : PortfolioEngine F) (s : Sale F) (o : Option (OpenPosition F)) (f : PortfolioEngine F)
      (r : TradeRecord F)
      → IsLongOnly e
      → lookup s.symbol e.positions ≡ o
      → reduce_found e s o ≡ (f, ok r)
      → IsLongOnly f
        × (r.quantity ≡ min_ℤ s.quantity (shares o))
        × ((t : String)
            → open_quantity f t
              ≡ (if str_eq s.symbol t then shares o -ℤ r.quantity else open_quantity e t))
  unfolding reduce_found open_quantity shares keep_rest trade_of
  reduce_found-Held e s none f r long found h = absurd (err≢ok (ap (λ y. y.1) h))
  reduce_found-Held e s (some p) f r long found h =
      let sold = min_ℤ s.quantity p.quantity in
      let paid = record e { cash = fl.add e.cash (fl.mul s.fill_price (of_int sold)) } in
      let (own, checked) = Entries-lookup IsHeld e.positions s.symbol p long found in
      let (rest, trade) =
        settle_sale_ok paid p s sold (check_trade_record (trade_of p s sold)) f r h in
      let (held, counts) =
        kept-Held (ltb_ℤ (pos 0) (p.quantity -ℤ sold)) paid s.symbol p (p.quantity -ℤ sold) f long
          own rest in
      (
        held,
        ap (λ x. x.quantity) (sym trade),
        λ t.
            counts t
            ∙ ap (λ n. if str_eq s.symbol t then n else open_quantity e t)
                (rest_lem p.quantity s.quantity ∙ ap (λ x. p.quantity -ℤ x.quantity) trade),
      )

  -- A `reduce_or_close` that does not raise takes its quantity, or all shares there are, from its
  -- symbol, records what it took, and leaves a long-only portfolio.
  pub reduce_or_close-Held :
      (e : PortfolioEngine F) (s : Sale F) (f : PortfolioEngine F) (r : TradeRecord F)
      → IsLongOnly e
      → reduce_or_close e s ≡ (f, ok r)
      → IsLongOnly f
        × (r.quantity ≡ min_ℤ s.quantity (open_quantity e s.symbol))
        × ((t : String)
            → open_quantity f t
              ≡ (if str_eq s.symbol t then open_quantity e t -ℤ r.quantity else open_quantity e t))
  unfolding reduce_or_close open_quantity
  reduce_or_close-Held e s f r long done =
      let (held, sold, counts) =
        reduce_found-Held e s (lookup s.symbol e.positions) f r long refl done in
      (
        held,
        sold,
        λ t.
            counts t
            ∙ if-same s.symbol t (λ u. open_quantity e u -ℤ r.quantity) (open_quantity e t),
      )
