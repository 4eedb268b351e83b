-- ===== src/Execution/Protection.antt =====
-- Every order that the builder makes is protected, and it makes one whenever the stop allows it.
use suky_tradin_bot.Common.Time.{require_utc, same_time_refl}
use suky_tradin_bot.Execution.Router.{RoutingDecision, route, route_quantity}
use suky_tradin_bot.Common.Text.{is_blank, is_blank-<>, is_nil, &&_false}
use suky_tradin_bot.Risk.Portfolio.{PortfolioState}
use suky_tradin_bot.Risk.Decision.{ExecutionDecision}
use suky_tradin_bot.Execution.Builder.{
  Printer, OrderBuilder, idempotency_key, protect, routed_text, build, build_routed, intent_of,
}
use text.Mathlib.TextPositions.{eq_refl}
use suky_tradin_bot.Base.{
  ◌≡◌, refl, true, false, Option, none, some, String, str_eq, ◌<>◌, arith, ◌∙◌, Bool-cases, inl,
  inr,
}
use suky_tradin_bot.Base.Int.{pos, ◌≤ℤ◌}
use suky_tradin_bot.Execution.Order.{
  buy, sell, ExecutionContext, FeatureSnapshot, OrderSide, OrderIntent, check_order_intent,
}
use suky_tradin_bot.Float.{Float, zero_f}
use suky_tradin_bot.Common.Errors.{Result, ok, err, bind-eq-ok, construct, construct-eq-ok, ◌>>=◌}

module _ {F : Type 0} ⦃fl : Float F⦄ (print : Printer) (b : OrderBuilder F)
    (e : ExecutionDecision F) (p : PortfolioState F) (context : ExecutionContext F)
    (s : FeatureSnapshot F) where
  open fl use {le}

  -- What an order says of its stop: a buy has one that is not at or above its price, a sell none.
  abbrev pub Protected : OrderSide → F → Option F → Type 0
  Protected buy price stop = (x : F) × (stop ≡ some x) × (le price x ≡ false)
  Protected sell price stop = stop ≡ none

  protect_sound :
      (side : OrderSide) (r : RoutingDecision) {x : Option F × String}
      → protect print b e context s side r ≡ ok x
      → Protected side context.reference_price x.0
  unfolding protect
  protect_sound buy r h =
      (b.stop_loss_policy.compute_stop_loss context s, ground arith, ground arith)
  protect_sound sell r h = ground arith

  bought :
      (r : RoutingDecision) {x : Option F × String}
      → protect print b e context s buy r ≡ ok x
      → x.1
        ≡ routed_text print "Routed BUY " r e
          <> "; stop_loss="
          <> fl.show ".4f" (b.stop_loss_policy.compute_stop_loss context s)
          <> " via "
          <> b.stop_loss_policy.name
          <> "."
  unfolding protect
  bought r h = ground arith

  sold :
      (r : RoutingDecision) {x : Option F × String}
      → protect print b e context s sell r ≡ ok x
      → x.1 ≡ routed_text print "Routed SELL " r e <> "."
  unfolding protect
  sold r h = ground arith

  -- The reasoning and the key are never blank, whatever texts they quote.
  protect_given :
      (side : OrderSide) (r : RoutingDecision) {x : Option F × String}
      → protect print b e context s side r ≡ ok x
      → is_blank x.1 ≡ false
  unfolding is_blank routed_text
  protect_given buy r h = rw (bought r h) (simp is_blank-<>)
  protect_given sell r h = rw (sold r h) (simp is_blank-<>)

  key_given : (r : RoutingDecision) → is_blank (idempotency_key print e r) ≡ false
  unfolding idempotency_key is_blank
  key_given r = simp is_blank-<> (&&_false (is_blank e.symbol))

  protect_answers :
      (side : OrderSide) (r : RoutingDecision)
      → (side ≡ buy
          → le context.reference_price (b.stop_loss_policy.compute_stop_loss context s) ≡ false)
      → (x : Option F × String) × (protect print b e context s side r ≡ ok x)
  unfolding protect
  protect_answers buy r h = (
    (
      some (b.stop_loss_policy.compute_stop_loss context s),
      routed_text print "Routed BUY " r e
          <> "; stop_loss="
          <> fl.show ".4f" (b.stop_loss_policy.compute_stop_loss context s)
          <> " via "
          <> b.stop_loss_policy.name
          <> ".",
    ),
    rw (h refl) refl,
  )
  protect_answers sell r h = ((none, routed_text print "Routed SELL " r e <> "."), refl)

  intent_passes :
      (side : OrderSide) (r : RoutingDecision) (stop : Option F) (reasoning : String)
      → r.side ≡ side
      → (pos 1 ≤ℤ r.quantity) × (le context.reference_price zero_f ≡ false)
      → e.approved ≡ true
      → require_utc e.timestamp "timestamp" ≡ ok tt
      → is_nil e.symbol ≡ false
      → Protected side context.reference_price stop
      → is_blank reasoning ≡ false
      → check_order_intent (intent_of print b e context r stop reasoning) ≡ ok tt
  unfolding check_order_intent
  intent_passes buy r stop reasoning q (one, price) a utc named (x, given, below) text =
      ground (arith, eq_refl e.symbol, same_time_refl e.timestamp, key_given r)
  intent_passes sell r stop reasoning q (one, price) a utc named none_given text =
      ground (arith, eq_refl e.symbol, same_time_refl e.timestamp, key_given r)

  -- A routed order for a decision that is approved, in UTC and about the symbol of the context and
  -- of the features is built, with the side and the quantity of the routing, when its side is a
  -- sell or its stop is not at or above the price.
  pub build_answers :
      (r : RoutingDecision)
      → route e p context.reference_price ≡ ok (some r)
      → str_eq context.symbol e.symbol ≡ true
      → str_eq s.symbol e.symbol ≡ true
      → e.approved ≡ true
      → require_utc e.timestamp "timestamp" ≡ ok tt
      → is_nil e.symbol ≡ false
      → (r.side ≡ buy
          → le context.reference_price (b.stop_loss_policy.compute_stop_loss context s) ≡ false)
      → (i : OrderIntent F) × (build print b e p context s ≡ ok (some i))
        × (i.side ≡ r.side)
        × (i.quantity ≡ r.quantity)
        × (i.execution_reference ≡ e)
  unfolding build build_routed
  build_answers r h cs ss approved utc named stop =
      let (x, px) = protect_answers r.side r stop in
      let passed =
        intent_passes r.side r x.0 x.1 refl (route_quantity e p context.reference_price h) approved
          utc named (protect_sound r.side r px) (protect_given r.side r px) in
      (intent_of print b e context r x.0 x.1, rw (cs, ss, h, px, passed) refl, refl, refl, refl)

  -- What `build-Sound` states of an order.
  abbrev pub Sound : OrderIntent F → Type 0
  Sound i =
      (i.execution_reference ≡ e)
      × (e.approved ≡ true)
      × (pos 1 ≤ℤ i.quantity)
      × (i.reference_price ≡ context.reference_price)
      × Protected i.side i.reference_price i.stop_loss

  approved_of :
      (i : OrderIntent F) → check_order_intent i ≡ ok tt → i.execution_reference.approved ≡ true
  unfolding check_order_intent
  approved_of i h = ground arith

  routed-Sound :
      (o : Option RoutingDecision) {i : OrderIntent F}
      → route e p context.reference_price ≡ ok o
      → build_routed print b e context s o ≡ ok (some i)
      → Sound i
  unfolding build_routed
  routed-Sound none h k = cc
  routed-Sound (some r) h k =
      let (x, px, k') = bind-eq-ok (protect print b e context s r.side r) _ k in
      let intent = intent_of print b e context r x.0 x.1 in
      let (i', built, k'') = bind-eq-ok (construct check_order_intent intent) _ k' in
      let (passed, same) = construct-eq-ok check_order_intent intent built in
      let whole = same ∙ ok-injective k'' in
      rw (← whole) (
        refl,
        approved_of intent passed,
        (route_quantity e p context.reference_price h).0,
        refl,
        protect_sound r.side r px,
      )
    where
      ok-injective :
          {i j : OrderIntent F}
          → ◌≡◌ {A = Result (Option (OrderIntent F))} (ok (some i)) (ok (some j))
          → i ≡ j
      ok-injective h = ground arith

  -- An order comes from a routing that went through.
  build_routes :
      (x : Result (Option RoutingDecision)) {i : OrderIntent F}
      → (x >>= λ o. build_routed print b e context s o) ≡ ok (some i)
      → (o : Option RoutingDecision) × (x ≡ ok o)
        × (build_routed print b e context s o ≡ ok (some i))
  build_routes (ok o) h = (o, refl, h)
  build_routes (err x) h = ground arith

  -- Every order that the builder returns refers to the decision that it was built from, which is
  -- approved, has a quantity of at least one, and is protected: a buy names a stop that is not at
  -- or above its price, a sell names none.
  pub build-Sound : {i : OrderIntent F} → build print b e p context s ≡ ok (some i) → Sound i
  unfolding build
  build-Sound h = elim (Bool-cases (str_eq context.symbol e.symbol)) [
    | inl cs ↦ elim (Bool-cases (str_eq s.symbol e.symbol)) [
      | inl ss ↦
          let (o, routed, k) =
            build_routes (route e p context.reference_price) (rw (cs, ss) at h) in
          routed-Sound o routed k
      | inr ss ↦ ground arith
    ]
    | inr cs ↦ ground arith
  ]
