-- ===== src/Common/Entries.antt =====
-- Dicts whose keys differ and whose entries have a property.
use mathlib.Core.Path.{subst}
use suky_tradin_bot.Base.{
  ◌≡◌, refl, none, some, String, str_eq, eq_iff, [], ◌∷◌, arith, if◌then◌else◌, Bool-cases, inl,
  inr, ◌∙◌, ap, sym,
}
use suky_tradin_bot.Common.Dict.{Dict, lookup, insert, erase, lookup-insert}

some_eq : {V : Type 0} (v w : V) → some v ≡ some w → v ≡ w
some_eq v w h = cc

module _ {V : Type 0} (P : String → V → Type 0) where
  abbrev pub Entries : Dict V → Type 0
  Entries [] = Unit
  Entries ((k, v) ∷ d) = (lookup k d ≡ none) × P k v × Entries d

  pub Entries-lookup : (d : Dict V) (k : String) (v : V) → Entries d → lookup k d ≡ some v → P k v
  unfolding lookup
  Entries-lookup [] k v h e = ground arith
  Entries-lookup ((j, w) ∷ d) k v (new, p, rest) e = elim (Bool-cases (str_eq j k)) [
    | inl s ↦
        subst (λ u. P u v) ((eq_iff j k).0 s)
          (subst (λ u. P j u) (some_eq w v (ap (λ b. if b then some w else lookup k d) (sym s) ∙ e))
            p)
    | inr s ↦ Entries-lookup d k v rest (ap (λ b. if b then some w else lookup k d) (sym s) ∙ e)
  ]

  pub Entries-insert :
      (d : Dict V) (k : String) (v : V) → P k v → Entries d → Entries (insert k v d)
  unfolding insert lookup
  Entries-insert [] k v p h = (refl, p, tt)
  Entries-insert ((j, w) ∷ d) k v p (new, q, rest) = elim (Bool-cases (str_eq j k)) [
    | inl s ↦ rw s (new, subst (λ t. P t v) (sym ((eq_iff j k).0 s)) p, rest)
    | inr s ↦ rw s (
      lookup-insert k j v d ∙ ground (arith, eq_iff j k, eq_iff k j),
      q,
      Entries-insert d k v p rest,
    )
  ]

  pub lookup-erase :
      (d : Dict V) (k j : String)
      → Entries d
      → lookup j (erase k d) ≡ (if str_eq k j then none else lookup j d)
  unfolding lookup erase
  lookup-erase [] k j h = ground arith
  lookup-erase ((i, w) ∷ d) k j (new, q, rest) =
      ground (arith, eq_iff k j, eq_iff i k, eq_iff i j, lookup-erase d k j rest)

  pub Entries-erase : (d : Dict V) (k : String) → Entries d → Entries (erase k d)
  unfolding erase
  Entries-erase [] k h = h
  Entries-erase ((j, w) ∷ d) k (new, q, rest) = elim (Bool-cases (str_eq j k)) [
    | inl s ↦ rw s rest
    | inr s ↦ rw s (
      lookup-erase d k j rest ∙ ground (arith, eq_iff j k, eq_iff k j),
      q,
      Entries-erase d k rest,
    )
  ]
