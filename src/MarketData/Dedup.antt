-- ===== src/MarketData/Dedup.antt =====
-- What `deduplicate_bars` (src/market_data/validation.py) keeps.
use suky_tradin_bot.Common.Instants.{
  earlier_trans, same_time_trans, not_earlier, same_time_sym, earlier_total,
}
use suky_tradin_bot.Base.{
  List, ◌≡◌, Option, ◌∷◌, if◌then◌else◌, false, true, none, ◌∙◌, All, [], ap, some, arith, refl,
  Bool-cases, inl, inr, sym, Bool,
}
use suky_tradin_bot.Common.Time.{Datetime, is_naive, same_time, earlier}
use suky_tradin_bot.MarketData.Models.{Bar}
use suky_tradin_bot.MarketData.Validation.{
  put_bar, by_timestamp, insert_bar, sorted, deduplicate_bars,
}

module _ {F : Type 0} where
  -- The bar of a list at a time.
  unfoldable pub bar_at : Datetime → List (Bar F) → Option (Bar F)
  bar_at t [] = none
  bar_at t (b ∷ bars) = if same_time b.timestamp t then some b else bar_at t bars

  -- The last bar of a list at a time, or what there was before the list.
  unfoldable pub last_at : Datetime → List (Bar F) → Option (Bar F) → Option (Bar F)
  last_at t [] before = before
  last_at t (b ∷ bars) before = last_at t bars (if same_time b.timestamp t then some b else before)

  bar_at-put_bar :
      (t : Datetime) (b : Bar F) (d : List (Bar F))
      → bar_at t (put_bar b d) ≡ (if same_time b.timestamp t then some b else bar_at t d)
  unfolding bar_at put_bar
  bar_at-put_bar t b [] = refl
  bar_at-put_bar t b (c ∷ d) = ground (
    arith,
    bar_at-put_bar t b d,
    same_time_trans c.timestamp b.timestamp t,
    same_time_trans b.timestamp c.timestamp t,
    same_time_sym c.timestamp b.timestamp,
  )

  bar_at-by_timestamp :
      (t : Datetime) (bars d : List (Bar F))
      → bar_at t (by_timestamp bars d) ≡ last_at t bars (bar_at t d)
  unfolding by_timestamp last_at
  bar_at-by_timestamp t [] d = refl
  bar_at-by_timestamp t (b ∷ bars) d =
      bar_at-by_timestamp t bars (put_bar b d) ∙ ap (last_at t bars) (bar_at-put_bar t b d)

  bar_at-insert_bar :
      (t : Datetime) (b : Bar F) (d : List (Bar F))
      → bar_at t (insert_bar b d) ≡ (if same_time b.timestamp t then some b else bar_at t d)
  unfolding bar_at insert_bar
  bar_at-insert_bar t b [] = refl
  bar_at-insert_bar t b (c ∷ d) = ground (
    arith,
    bar_at-insert_bar t b d,
    not_earlier c.timestamp b.timestamp,
    same_time_trans c.timestamp t b.timestamp,
    same_time_sym b.timestamp t,
  )

  bar_at-sorted : (t : Datetime) (d : List (Bar F)) → bar_at t (sorted d) ≡ bar_at t d
  unfolding bar_at sorted
  bar_at-sorted t [] = refl
  bar_at-sorted t (b ∷ d) =
      bar_at-insert_bar t b (sorted d)
      ∙ ap (λ o. if same_time b.timestamp t then some b else o) (bar_at-sorted t d)

  -- At every time, what is kept is the last bar that was given for it.
  deduplicate_bars-last :
      (t : Datetime) (bars : List (Bar F)) → bar_at t (deduplicate_bars bars) ≡ last_at t bars none
  unfolding deduplicate_bars bar_at
  deduplicate_bars-last t bars =
      bar_at-sorted t (by_timestamp bars []) ∙ bar_at-by_timestamp t bars []

  -- Every bar is before all that follow.
  unfoldable pub IsAscending : List (Bar F) → Type 0
  IsAscending [] = Unit
  IsAscending (b ∷ bars) = All (λ c. earlier b.timestamp c.timestamp ≡ true) bars × IsAscending bars

  -- Every time is that of one bar at most.
  abbrev IsDistinct : List (Bar F) → Type 0
  IsDistinct [] = Unit
  IsDistinct (b ∷ bars) = (bar_at b.timestamp bars ≡ none) × IsDistinct bars

  abbrev pub IsAware : Bar F → Type 0
  IsAware b = is_naive b.timestamp ≡ false

  absent :
      (x : Bool) (c : Bar F) (o : Option (Bar F)) → (if x then some c else o) ≡ none → x ≡ false
  absent true c o h = ground arith
  absent false c o h = refl

  bar_at_same : (s t : Datetime) (d : List (Bar F)) → same_time s t ≡ true → bar_at s d ≡ bar_at t d
  unfolding bar_at
  bar_at_same s t [] h = refl
  bar_at_same s t (c ∷ d) h = ground (
    arith,
    bar_at_same s t d h,
    same_time_trans c.timestamp s t,
    same_time_trans c.timestamp t s,
    same_time_sym s t,
  )

  IsDistinct-put_bar : (b : Bar F) (d : List (Bar F)) → IsDistinct d → IsDistinct (put_bar b d)
  unfolding put_bar bar_at
  IsDistinct-put_bar b [] h = (refl, tt)
  IsDistinct-put_bar b (c ∷ d) (new, rest) = elim (Bool-cases (same_time c.timestamp b.timestamp)) [
    | inl s ↦ rw s (
      bar_at_same b.timestamp c.timestamp d (same_time_sym b.timestamp c.timestamp ∙ s) ∙ new,
      rest,
    )
    | inr s ↦ rw s (
      bar_at-put_bar c.timestamp b d
          ∙ ap (λ x. if x then some b else bar_at c.timestamp d)
              (same_time_sym b.timestamp c.timestamp ∙ s)
          ∙ new,
      IsDistinct-put_bar b d rest,
    )
  ]

  IsDistinct-by_timestamp :
      (bars d : List (Bar F)) → IsDistinct d → IsDistinct (by_timestamp bars d)
  unfolding by_timestamp
  IsDistinct-by_timestamp [] d h = h
  IsDistinct-by_timestamp (b ∷ bars) d h =
      IsDistinct-by_timestamp bars (put_bar b d) (IsDistinct-put_bar b d h)

  All-put_bar :
      (P : Bar F → Type 0) (b : Bar F) (d : List (Bar F)) → P b → All P d → All P (put_bar b d)
  unfolding put_bar
  All-put_bar P b [] p h = (p, tt)
  All-put_bar P b (c ∷ d) p (q, h) = elim (Bool-cases (same_time c.timestamp b.timestamp)) [
    | inl s ↦ rw s (p, h)
    | inr s ↦ rw s (q, All-put_bar P b d p h)
  ]

  All-by_timestamp :
      (P : Bar F → Type 0) (bars d : List (Bar F))
      → All P bars
      → All P d
      → All P (by_timestamp bars d)
  unfolding by_timestamp
  All-by_timestamp P [] d h k = k
  All-by_timestamp P (b ∷ bars) d (p, h) k =
      All-by_timestamp P bars (put_bar b d) h (All-put_bar P b d p k)

  All-insert_bar :
      (P : Bar F → Type 0) (b : Bar F) (d : List (Bar F)) → P b → All P d → All P (insert_bar b d)
  unfolding insert_bar
  All-insert_bar P b [] p h = (p, tt)
  All-insert_bar P b (c ∷ d) p (q, h) = elim (Bool-cases (earlier c.timestamp b.timestamp)) [
    | inl s ↦ rw s (q, All-insert_bar P b d p h)
    | inr s ↦ rw s (p, (q, h))
  ]

  All-sorted : (P : Bar F → Type 0) (d : List (Bar F)) → All P d → All P (sorted d)
  unfolding sorted
  All-sorted P [] h = h
  All-sorted P (b ∷ d) (p, h) = All-insert_bar P b (sorted d) p (All-sorted P d h)

  later_than :
      (b c : Bar F) (d : List (Bar F))
      → earlier b.timestamp c.timestamp ≡ true
      → All (λ x. earlier c.timestamp x.timestamp ≡ true) d
      → All (λ x. earlier b.timestamp x.timestamp ≡ true) d
  later_than b c [] h k = k
  later_than b c (x ∷ d) h (e, k) =
      (earlier_trans b.timestamp c.timestamp x.timestamp h e, later_than b c d h k)

  IsAscending-insert_bar :
      (b : Bar F) (d : List (Bar F))
      → IsAware b
      → All IsAware d
      → bar_at b.timestamp d ≡ none
      → IsAscending d
      → IsAscending (insert_bar b d)
  unfolding insert_bar bar_at IsAscending
  IsAscending-insert_bar b [] a us new h = (tt, tt)
  IsAscending-insert_bar b (c ∷ d) a (ac, us) new (before, h) =
      elim (Bool-cases (earlier c.timestamp b.timestamp)) [
        | inl s ↦ rw s (
          All-insert_bar (λ x. earlier c.timestamp x.timestamp ≡ true) b d s before,
          IsAscending-insert_bar b d a us
              (ap (λ x. if x then some c else bar_at b.timestamp d)
                  (sym (not_earlier c.timestamp b.timestamp s))
                ∙ new)
              h,
        )
        | inr s ↦
            let first =
              earlier_total c.timestamp b.timestamp ac a s
                (absent (same_time c.timestamp b.timestamp) c (bar_at b.timestamp d) new) in
            rw s ((first, later_than b c d first before), (before, h))
      ]

  IsAscending-sorted : (d : List (Bar F)) → All IsAware d → IsDistinct d → IsAscending (sorted d)
  unfolding sorted IsAscending
  IsAscending-sorted [] a h = tt
  IsAscending-sorted (b ∷ d) (a, us) (new, h) =
      IsAscending-insert_bar b (sorted d) a (All-sorted IsAware d us)
        (bar_at-sorted b.timestamp d ∙ new) (IsAscending-sorted d us h)

  -- Of bars with aware times, `deduplicate_bars` keeps for every time the last that was given for
  -- it, in strictly ascending order of time.
  pub deduplicate_bars-IsAscending :
      (bars : List (Bar F))
      → All IsAware bars
      → IsAscending (deduplicate_bars bars)
        × ((t : Datetime) → bar_at t (deduplicate_bars bars) ≡ last_at t bars none)
  unfolding deduplicate_bars
  deduplicate_bars-IsAscending bars a = (
    IsAscending-sorted (by_timestamp bars []) (All-by_timestamp IsAware bars [] a tt)
        (IsDistinct-by_timestamp bars [] tt),
    λ t. deduplicate_bars-last t bars,
  )
