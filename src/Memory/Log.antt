-- ===== src/Memory/Log.antt =====
-- What the stores of src/memory/store.py promise.
use suky_tradin_bot.Common.Errors.{ok, corrupt_experience_log}
use suky_tradin_bot.Common.Jsonl.{
  JsonText, is_plain, is_value_sorted, is_key_sorted, IsJsonText, load_file-append,
}
use suky_tradin_bot.Common.Json.{Codec, IsCodec, IsShort}
use suky_tradin_bot.Float.{Float}
use mathlib.Core.List.{append-nil, append_assoc}
use suky_tradin_bot.Memory.ExperienceWire.{to_dict, from_dict, from_dict-to_dict}
use suky_tradin_bot.Memory.Experience.{ExperienceRecord, check_experience_record}
use suky_tradin_bot.Base.Int.{ℤ, eq_ℤ_iff}
use suky_tradin_bot.Base.{
  String, List, ◌≡◌, ◌∷◌, ◌++◌, true, if◌then◌else◌, sym, [], arith, ◌∙◌, ◌↔◌, eq_iff, ap, Bool,
  Option, false, refl,
}
use suky_tradin_bot.Memory.Store.{
  ExperienceStore, empty_experience, append, for_context, same_context, add_to, records_of,
  load_experience, append_logged, Contexts,
}

same_context_iff : (k j : String × ℤ) → same_context k j ≡ true ↔ k ≡ j
unfolding same_context
same_context_iff (s, m) (t, n) = ground (arith, eq_iff s t, eq_ℤ_iff m n)

module _ {F : Type 0} where
  -- The records of a context, out of a list of them.
  unfoldable pub within : String → ℤ → List (ExperienceRecord F) → List (ExperienceRecord F)
  within s q [] = []
  within s q (r ∷ rest) =
      let others = within s q rest in
      if same_context (s, q) (r.strategy_id, r.regime_id) then r ∷ others else others

  unfoldable pub append_all : List (ExperienceRecord F) → ExperienceStore F → ExperienceStore F
  append_all [] s = s
  append_all (r ∷ rest) s = append_all rest (append r s)

  records_of-add_to :
      (k j : String × ℤ) (r : ExperienceRecord F) (d : Contexts F)
      → records_of k (add_to j r d)
        ≡ (if same_context k j then records_of k d ++ (r ∷ []) else records_of k d)
  unfolding records_of add_to
  records_of-add_to k j r [] = ground arith
  records_of-add_to k j r ((i, rs) ∷ d) = ground (
    arith,
    same_context_iff k j,
    same_context_iff k i,
    same_context_iff j i,
    records_of-add_to k j r d,
  )

  if-append :
      (b : Bool) (xs : List (ExperienceRecord F)) (r : ExperienceRecord F)
      (ys : List (ExperienceRecord F))
      → (if b then xs ++ (r ∷ []) else xs) ++ ys ≡ xs ++ (if b then r ∷ ys else ys)
  if-append true xs r ys = append_assoc xs (r ∷ []) ys
  if-append false xs r ys = refl

  append_all_lem :
      (new : List (ExperienceRecord F)) (s : ExperienceStore F) (t : String) (q : ℤ)
      → for_context (append_all new s) t q ≡ for_context s t q ++ within t q new
  unfolding append_all within for_context append
  append_all_lem [] s t q = sym (append-nil (for_context s t q))
  append_all_lem (r ∷ rest) s t q =
      append_all_lem rest (append r s) t q
      ∙ ap (λ xs. xs ++ within t q rest)
          (records_of-add_to (t, q) (r.strategy_id, r.regime_id) r s.by_context)
      ∙ if-append (same_context (t, q) (r.strategy_id, r.regime_id)) (for_context s t q) r
          (within t q rest)

  -- What the store gives for a context is the records of that context, in the order of their
  -- arrival.
  pub append_all-for_context :
      (new : List (ExperienceRecord F)) (t : String) (q : ℤ)
      → for_context (append_all new empty_experience) t q ≡ within t q new
  unfolding within for_context records_of
  append_all-for_context new t q = append_all_lem new empty_experience t q

  plain :
      ⦃fl : Float F⦄ (c : Codec F) (j : JsonText F) (r : ExperienceRecord F)
      → is_key_sorted j.key_lt r.metadata ≡ true
      → is_plain j.key_lt (to_dict c r) ≡ true
  unfolding is_plain is_value_sorted to_dict
  plain c j r h = ground (arith, h)

  -- A log that loads to a store loads to the store that an `append` of a checked record leaves,
  -- where the record's holding period is of at most 2^52 microseconds and its metadata has its keys
  -- in order.
  pub load-append_logged :
      ⦃fl : Float F⦄ (c : Codec F) (j : JsonText F) (s : ExperienceStore F)
      (file : Option (List j.Text)) (r : ExperienceRecord F)
      → IsCodec c
      → IsJsonText j
      → load_experience c j file ≡ ok s
      → check_experience_record r ≡ ok tt
      → IsShort r.holding_period
      → is_key_sorted j.key_lt r.metadata ≡ true
      → load_experience c j (append_logged c j s file r).1 ≡ ok (append_logged c j s file r).0
  unfolding load_experience append_logged
  load-append_logged c j s file r laws texts loaded checked short ordered =
      load_file-append j (from_dict c) append
        (corrupt_experience_log "is not a valid ExperienceRecord") file (to_dict c r) r
        empty_experience s texts (plain c j r ordered) (from_dict-to_dict c r laws checked short)
        loaded
