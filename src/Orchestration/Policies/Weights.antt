-- ===== src/Orchestration/Policies/Weights.antt =====
-- The weighted vote: its multiplier and its shares lie in [0, 1] while the weights stay finite.
use suky_tradin_bot.Orchestration.Policies.Finish.{
  input_passes, learner_silent, weight_silent, weight-IsUnit, news_silent, opening_given,
}
use suky_tradin_bot.Orchestration.Policies.Votes.{scaled_final_bounds}
use suky_tradin_bot.Orchestration.Policies.Bounds.{Tempered, finish-Tempered}
use suky_tradin_bot.Orchestration.Signals.{
  validate_context, learner_considered_and_agrees, news_considered_and_agrees,
}
use suky_tradin_bot.Nlp.Signal.{NewsSignal}
use suky_tradin_bot.Memory.Decision.{LearningDecision}
use suky_tradin_bot.Common.Text.{is_blank, is_blank-join}
use suky_tradin_bot.Orchestration.Policies.Defs.{
  WeightedVotePolicy, check_weights, vote_multiplier, votes_of, total_weight, weighted_vote,
  opening,
}
use suky_tradin_bot.Base.{
  ◌≡◌, refl, Bool, true, false, Option, arith, if◌then◌else◌, List, [], ◌∷◌, All, map,
}
use suky_tradin_bot.Float.{Float, IsFloat, ◌≼◌, IsUnit, zero_f, one_f, sum_from}
use suky_tradin_bot.Float.Order
use suky_tradin_bot.Common.Errors.{ok}
use suky_tradin_bot.Strategy.Decision.{StrategyDecision, IsChecked, IsChecked→Checked}

module _ {F : Type 0} ⦃fl : Float F⦄ (laws : IsFloat F) where
  open fl use {lt, eq, add, mul, div, sub, decimal, infinity}
  open laws use {le_trans, le_numbers, div-IsUnit, add_mono, le-add, mul_share}

  -- A vote with a weight that is not negative and not infinite, and a value in [0, 1].
  abbrev IsVote : F × F → Type 0
  IsVote v = (zero_f ≼ v.0) × (lt v.0 infinity ≡ true) × IsUnit v.1

  -- Scaling each weight by its vote does not raise the sum.
  sum_votes :
      (acc acc' : F) (votes : List (F × F))
      → zero_f ≼ acc
      → acc ≼ acc'
      → All (λ v. IsVote v) votes
      → let scaled = sum_from acc (map (λ v. mul v.0 v.1) votes) in
        (zero_f ≼ scaled) × (scaled ≼ sum_from acc' (map (λ v. v.0) votes))
  unfolding sum_from
  sum_votes acc acc' [] low high u = (low, high)
  sum_votes acc acc' (v ∷ vs) low high ((w, f, u), us) =
      let (least, most) = mul_share v.0 v.1 w f u in
      sum_votes (add acc (mul v.0 v.1)) (add acc' v.0) vs
        (le_trans _ _ _ low (le-add _ _ low least).0) (add_mono _ _ _ _ low high least most) us

  -- The sum is at least the sum so far, and at least each weight.
  le-sum :
      (acc : F) (ws : List F)
      → zero_f ≼ acc
      → All (λ w. zero_f ≼ w) ws
      → (acc ≼ sum_from acc ws) × All (λ w. w ≼ sum_from acc ws) ws
  unfolding sum_from
  le-sum acc [] low u = ((le_numbers _ _ low).1, tt)
  le-sum acc (w ∷ ws) low (u, us) =
      let (left, right) = le-add acc w low u in
      let (up, all) = le-sum (add acc w) ws (le_trans _ _ _ low left) us in
      (le_trans _ _ _ left up, (le_trans _ _ _ right up, all))

  -- None of the three weights is infinite or NaN, which `__post_init__` does not test.
  abbrev pub Finite : WeightedVotePolicy F → Type 0
  Finite w =
      (lt w.strategy_weight infinity ≡ true)
      × (lt w.learner_weight infinity ≡ true)
      × (lt w.news_weight infinity ≡ true)

  weights_signed :
      (w : WeightedVotePolicy F)
      → check_weights w ≡ ok tt
      → Finite w
      → (lt zero_f w.strategy_weight ≡ true)
        × (zero_f ≼ w.learner_weight)
        × (zero_f ≼ w.news_weight)
  unfolding check_weights
  weights_signed w h (fs, fl', fn) =
      let zero_self = Order.zero_self laws in
      ground (
        arith,
        Order.not-le→lt laws w.strategy_weight zero_f (Order.lt→numbers laws _ _ fs).0 zero_self,
        Order.not-lt→le laws w.learner_weight zero_f (Order.lt→numbers laws _ _ fl').0 zero_self,
        Order.not-lt→le laws w.news_weight zero_f (Order.lt→numbers laws _ _ fn).0 zero_self,
      )

  one : IsUnit {F = F} one_f
  one = Order.one-IsUnit laws

  vote-IsUnit : (agrees : Bool) → IsUnit {F = F} (if agrees then one_f else zero_f)
  vote-IsUnit true = one
  vote-IsUnit false = Order.zero-IsUnit laws

  module _ (w : WeightedVotePolicy F)
      (signed : (lt zero_f w.strategy_weight ≡ true)
        × (zero_f ≼ w.learner_weight)
        × (zero_f ≼ w.news_weight))
      (finite : Finite w) where
    votes : Bool × Bool → Bool × Bool → List (F × F)
    votes l n = votes_of w.strategy_weight w.learner_weight w.news_weight l n

    zero_sw : zero_f ≼ w.strategy_weight
    zero_sw = Order.lt→le laws _ _ signed.0

    -- Votes in [0, 1], a first weight that the total exceeds, and each considered weight below it.
    votes_sound :
        (l n : Bool × Bool)
        → All (λ v. IsVote v) (votes l n)
          × (lt zero_f (total_weight (votes l n)) ≡ true)
          × (l.0 ≡ true → w.learner_weight ≼ total_weight (votes l n))
          × (n.0 ≡ true → w.news_weight ≼ total_weight (votes l n))
    unfolding votes votes_of total_weight
    votes_sound (true, la) (true, na) =
        let (_, above) =
          le-sum zero_f (w.strategy_weight ∷ w.learner_weight ∷ w.news_weight ∷ [])
            (Order.zero_self laws) (zero_sw, (signed.1, (signed.2, tt))) in
        (
          (
            (zero_sw, finite.0, one),
            ((signed.1, finite.1, vote-IsUnit la), ((signed.2, finite.2, vote-IsUnit na), tt)),
          ),
          Order.lt_of_lt_le laws _ _ _ signed.0 above.0,
          λ _. above.1.0,
          λ _. above.1.1.0,
        )
    votes_sound (true, la) (false, na) =
        let (_, above) =
          le-sum zero_f (w.strategy_weight ∷ w.learner_weight ∷ []) (Order.zero_self laws)
            (zero_sw, (signed.1, tt)) in
        (
          ((zero_sw, finite.0, one), ((signed.1, finite.1, vote-IsUnit la), tt)),
          Order.lt_of_lt_le laws _ _ _ signed.0 above.0,
          λ _. above.1.0,
          λ e. cc,
        )
    votes_sound (false, la) (true, na) =
        let (_, above) =
          le-sum zero_f (w.strategy_weight ∷ w.news_weight ∷ []) (Order.zero_self laws)
            (zero_sw, (signed.2, tt)) in
        (
          ((zero_sw, finite.0, one), ((signed.2, finite.2, vote-IsUnit na), tt)),
          Order.lt_of_lt_le laws _ _ _ signed.0 above.0,
          λ e. cc,
          λ _. above.1.0,
        )
    votes_sound (false, la) (false, na) =
        let (_, above) =
          le-sum zero_f (w.strategy_weight ∷ []) (Order.zero_self laws) (zero_sw, tt) in
        (
          ((zero_sw, finite.0, one), tt),
          Order.lt_of_lt_le laws _ _ _ signed.0 above.0,
          λ e. cc,
          λ e. cc,
        )

    multiplier-IsUnit :
        (l n : Bool × Bool)
        → lt (total_weight (votes l n)) infinity ≡ true
        → IsUnit (vote_multiplier (votes l n))
    unfolding vote_multiplier total_weight
    multiplier-IsUnit l n f =
        let (sound, positive, _, _) = votes_sound l n in
        let zero_self = Order.zero_self laws in
        let (low, high) = sum_votes zero_f zero_f (votes l n) zero_self zero_self sound in
        div-IsUnit _ _ low high positive f

    share-IsUnit :
        (l n : Bool × Bool) (considered : Bool) (weight : F)
        → lt (total_weight (votes l n)) infinity ≡ true
        → zero_f ≼ weight
        → (considered ≡ true → weight ≼ total_weight (votes l n))
        → considered ≡ true
        → IsUnit (div weight (total_weight (votes l n)))
    share-IsUnit l n considered weight f z below e =
        let (_, positive, _, _) = votes_sound l n in div-IsUnit _ _ z (below e) positive f

  -- With checked weights that are finite and have a finite total, `weighted_vote` answers every
  -- checked decision whose advice matches its context,
  -- with a decision about the same symbol and time whose
  -- allocation and confidence lie between zero and the strategy's.
  pub weighted_vote-Tempered :
      (w : WeightedVotePolicy F) (d : StrategyDecision F) (learning : Option (LearningDecision F))
      (news : Option (NewsSignal F))
      → check_weights w ≡ ok tt
      → Finite w
      → IsChecked d
      → validate_context d learning news ≡ ok tt
      → lt
          (total_weight (
            votes_of w.strategy_weight w.learner_weight w.news_weight
              (learner_considered_and_agrees d learning w.config.agreement_tolerance)
              (news_considered_and_agrees d news)))
          infinity
        ≡ true
      → Tempered d (weighted_vote w d learning news)
  unfolding weighted_vote is_blank votes
  weighted_vote-Tempered w d learning news good finite checked h f =
      let c = IsChecked→Checked d checked in
      let signed = weights_signed w good finite in
      let l = learner_considered_and_agrees d learning w.config.agreement_tolerance in
      let n = news_considered_and_agrees d news in
      let (_, _, below_l, below_n) = votes_sound w signed finite l n in
      let unit = multiplier-IsUnit w signed finite l n f in
      rw h (
        finish-Tempered laws d _ _ _ _ _ c
          (scaled_final_bounds laws d.allocation _ c.allocation_unit unit)
          (Order.mul_unit laws d.confidence _ c.confidence_unit unit)
          (input_passes laws _ refl (learner_silent d learning _) (weight_silent laws _ _)
            (weight-IsUnit laws _ _ (share-IsUnit w signed finite l n l.0 _ f signed.1 below_l)))
          (input_passes laws _ refl (news_silent d news) (weight_silent laws _ _)
            (weight-IsUnit laws _ _ (share-IsUnit w signed finite l n n.0 _ f signed.2 below_n)))
          (is_blank-join "; " (opening "[weighted_vote]" d) _
            (opening_given d "[weighted_vote]" refl)))
