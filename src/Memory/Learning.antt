-- ===== src/Memory/Learning.antt =====
-- What the bandit of src/memory/bandit.py learns from the records that it is given.
use suky_tradin_bot.Base.{
  ℕ, zero, suc, not, ◌&&◌, ◌<>◌, none, some, Option, true, Bool, false, sym, eq_iff,
}
use suky_tradin_bot.Common.Errors.{Result, ok, ◌>>=◌}
use suky_tradin_bot.Common.Dict.{lookup, insert, lookup-insert}
use suky_tradin_bot.Memory.Experience.{ExperienceRecord}
use suky_tradin_bot.Base.{
  String, List, ◌≡◌, ◌∷◌, if◌then◌else◌, str_eq, ap, [], arith, ◌∙◌, Option-cases, inl, refl, inr,
}
use suky_tradin_bot.Float.{Float, one_f}
use suky_tradin_bot.Memory.Bandit.{
  MemoryConfig, BetaArm, BanditPolicy, Sampling, check_memory_config, beta_arm, update_arm, arm_key,
  arm_for, update,
}

module _ {F : Type 0} ⦃fl : Float F⦄ (x : Sampling F) where
  -- `update` on each of the records.
  unfoldable pub learn : List (ExperienceRecord F) → BanditPolicy F → Result (BanditPolicy F)
  learn [] p = ok p
  learn (r ∷ rest) p = update x r p >>= learn rest

  -- An arm before its first record.
  abbrev pub fresh : MemoryConfig F → BetaArm F
  fresh c = record {
    prior_alpha = c.prior_alpha;
    prior_beta = c.prior_beta;
    alpha = c.prior_alpha;
    beta = c.prior_beta;
  }

  unfoldable pub or_fresh : MemoryConfig F → Option (BetaArm F) → BetaArm F
  or_fresh c none = fresh c
  or_fresh c (some a) = a

  -- What the policy believes of a context: a missing arm stands for a fresh one.
  unfoldable pub belief : BanditPolicy F → String → BetaArm F
  belief p key = or_fresh p.config (lookup key p.arms)

  -- An arm after the wins and losses of the records with its key.
  unfoldable tally : String → BetaArm F → List (ExperienceRecord F) → BetaArm F
  tally key a [] = a
  tally key a (r ∷ rest) =
      tally key (if str_eq (arm_key x r.strategy_id r.regime_id) key then update_arm r.won a else a)
        rest

  beta_arm-fresh :
      (c : MemoryConfig F)
      → check_memory_config c ≡ ok tt
      → beta_arm c.prior_alpha c.prior_beta ≡ ok (fresh c)
  unfolding check_memory_config beta_arm
  beta_arm-fresh c h = ground arith

  or_fresh-if :
      (c : MemoryConfig F) (b : Bool) (a : BetaArm F) (o : Option (BetaArm F))
      → or_fresh c (if b then some a else o) ≡ (if b then a else or_fresh c o)
  unfolding or_fresh
  or_fresh-if c true a o = refl
  or_fresh-if c false a o = refl

  belief-insert :
      (p : BanditPolicy F) (k key : String) (a : BetaArm F)
      → belief (record p { arms = insert k a p.arms }) key
        ≡ (if str_eq k key then a else belief p key)
  unfolding belief
  belief-insert p k key a =
      ap (or_fresh p.config) (lookup-insert k key a p.arms)
      ∙ or_fresh-if p.config (str_eq k key) a (lookup key p.arms)

  update_missing :
      (r : ExperienceRecord F) (p : BanditPolicy F)
      → check_memory_config p.config ≡ ok tt
      → lookup (arm_key x r.strategy_id r.regime_id) p.arms ≡ none
      → update x r p
        ≡ ok (record p {
          arms =
              insert
                (arm_key x r.strategy_id r.regime_id)
                (update_arm r.won (fresh p.config))
                (insert (arm_key x r.strategy_id r.regime_id) (fresh p.config) p.arms);
        })
  unfolding update arm_for
  update_missing r p h e = rw (arm_for, e, beta_arm-fresh p.config h) refl

  update_present :
      (r : ExperienceRecord F) (p : BanditPolicy F) (a : BetaArm F)
      → lookup (arm_key x r.strategy_id r.regime_id) p.arms ≡ some a
      → update x r p
        ≡ ok (record p {
          arms = insert (arm_key x r.strategy_id r.regime_id) (update_arm r.won a) p.arms;
        })
  unfolding update arm_for
  update_present r p a e = rw (arm_for, e) refl

  believed :
      (p : BanditPolicy F) (k : String) (a : BetaArm F)
      → or_fresh p.config (lookup k p.arms) ≡ a
      → (key : String) → str_eq k key ≡ true
      → belief p key ≡ a
  unfolding belief
  believed p k a e key same =
      ap (λ t. or_fresh p.config (lookup t p.arms)) (sym ((eq_iff k key).0 same)) ∙ e

  settle_new :
      (u : BetaArm F → BetaArm F) (b : Bool) (a v : BetaArm F)
      → (b ≡ true → v ≡ a)
      → (if b then u a else (if b then a else v)) ≡ (if b then u v else v)
  settle_new u true a v h = ap u (sym (h refl))
  settle_new u false a v h = refl

  settle :
      (u : BetaArm F → BetaArm F) (b : Bool) (a v : BetaArm F)
      → (b ≡ true → v ≡ a)
      → (if b then u a else v) ≡ (if b then u v else v)
  settle u true a v h = ap u (sym (h refl))
  settle u false a v h = refl

  -- One record reaches the belief about its own context, and no other.
  update_lem :
      (r : ExperienceRecord F) (p : BanditPolicy F)
      → check_memory_config p.config ≡ ok tt
      → (q : BanditPolicy F) × (update x r p ≡ ok q)
        × (q.config ≡ p.config)
        × ((key : String) → belief q key ≡ tally key (belief p key) (r ∷ []))
  unfolding tally or_fresh
  update_lem r p h = elim (Option-cases (lookup (arm_key x r.strategy_id r.regime_id) p.arms)) [
    | inl e ↦ (
      record p {
        arms = insert k (update_arm r.won (fresh p.config)) (insert k (fresh p.config) p.arms);
      },
      update_missing r p h e,
      refl,
      λ key.
          belief-insert (record p { arms = insert k (fresh p.config) p.arms }) k key
            (update_arm r.won (fresh p.config))
          ∙ ap (λ v. if str_eq k key then update_arm r.won (fresh p.config) else v)
              (belief-insert p k key (fresh p.config))
          ∙ settle_new (update_arm r.won) (str_eq k key) (fresh p.config) (belief p key)
              (believed p k (fresh p.config) (ap (or_fresh p.config) e) key),
    )
    | inr (a, e) ↦ (
      record p { arms = insert k (update_arm r.won a) p.arms },
      update_present r p a e,
      refl,
      λ key.
          belief-insert p k key (update_arm r.won a)
          ∙ settle (update_arm r.won) (str_eq k key) a (belief p key)
              (believed p k a (ap (or_fresh p.config) e) key),
    )
  ]
    where
      k : String
      k = arm_key x r.strategy_id r.regime_id

  learn-tally :
      (rs : List (ExperienceRecord F)) (p : BanditPolicy F)
      → check_memory_config p.config ≡ ok tt
      → (q : BanditPolicy F) × (learn rs p ≡ ok q)
        × ((key : String) → belief q key ≡ tally key (belief p key) rs)
  unfolding learn tally
  learn-tally [] p h = (p, refl, λ key. refl)
  learn-tally (r ∷ rest) p h =
      let (u, done, same, one) = update_lem r p h in
      let (q, rest_done, all) = learn-tally rest u (ap check_memory_config same ∙ h) in
      (q, rw done rest_done, λ key. all key ∙ ap (λ a. tally key a rest) (one key))

  -- The key of a context: its strategy and its regime.
  abbrev pub context : ExperienceRecord F → String
  context r = r.strategy_id <> ("|" <> x.int_text r.regime_id)

  -- How many records of a context were won, and how many were lost.
  unfoldable pub wins : String → List (ExperienceRecord F) → ℕ
  wins key [] = 0
  wins key (r ∷ rest) =
      let others = wins key rest in if str_eq (context r) key && r.won then suc others else others

  unfoldable pub losses : String → List (ExperienceRecord F) → ℕ
  losses key [] = 0
  losses key (r ∷ rest) =
      let others = losses key rest in
      if str_eq (context r) key && not r.won then suc others else others

  -- `n` times one more.
  unfoldable pub raised : ℕ → F → F
  raised zero a = a
  raised (suc n) a = raised n (fl.add a one_f)

  -- The arm after so many wins and losses: a win raises alpha by one and a loss beta.
  abbrev pub after : ℕ → ℕ → BetaArm F → BetaArm F
  after won lost a = record {
    prior_alpha = a.prior_alpha;
    prior_beta = a.prior_beta;
    alpha = raised won a.alpha;
    beta = raised lost a.beta;
  }

  tally-after :
      (key : String) (a : BetaArm F) (rs : List (ExperienceRecord F))
      → tally key a rs ≡ after (wins key rs) (losses key rs) a
  unfolding tally wins losses raised arm_key update_arm
  tally-after key a [] = refl
  tally-after key a (r ∷ rest) =
      one (str_eq (context r) key) r.won (λ a. tally-after key a rest) refl refl
    where
      one :
          (same won : Bool)
          → ((b : BetaArm F) → tally key b rest ≡ after (wins key rest) (losses key rest) b)
          → str_eq (context r) key ≡ same
          → r.won ≡ won
          → tally key a (r ∷ rest) ≡ after (wins key (r ∷ rest)) (losses key (r ∷ rest)) a
      one true true others e w = rw (e, w) (others (record a { alpha = fl.add a.alpha one_f }))
      one true false others e w = rw (e, w) (others (record a { beta = fl.add a.beta one_f }))
      one false won others e w = rw (e) (others a)

  -- A policy with a checked configuration learns from any records, and its arm of any context is
  -- then the arm that it had, or a fresh one with the priors of the configuration, whose alpha has
  -- gone up by one for every win among the records of the context and whose beta by one for every
  -- loss.
  pub learn-belief :
      (rs : List (ExperienceRecord F)) (p : BanditPolicy F)
      → check_memory_config p.config ≡ ok tt
      → (q : BanditPolicy F) × (learn rs p ≡ ok q)
        × ((key : String) → belief q key ≡ after (wins key rs) (losses key rs) (belief p key))
  learn-belief rs p h =
      let (q, done, all) = learn-tally rs p h in
      (q, done, λ key. all key ∙ tally-after key (belief p key) rs)
