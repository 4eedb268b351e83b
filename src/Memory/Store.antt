-- ===== src/Memory/Store.antt =====
-- The stores of experience (src/memory/store.py): in memory with an index, and as a log of one JSON
-- line per record.
use suky_tradin_bot.Base.{Bool, ◌&&◌, String, str_eq, List, [], ◌∷◌, ◌++◌, Option, if◌then◌else◌}
use suky_tradin_bot.Base.Int.{ℤ, eq_ℤ}
use suky_tradin_bot.Common.Errors.{Result, corrupt_experience_log}
use suky_tradin_bot.Common.Json.{Codec}
use suky_tradin_bot.Common.Jsonl.{JsonText, load_file, append_line}
use suky_tradin_bot.Float.{Float}
use suky_tradin_bot.Memory.Experience.{ExperienceRecord}
use suky_tradin_bot.Memory.ExperienceWire.{to_dict, from_dict}

-- `_context_key`
abbrev pub context_key : String → ℤ → String × ℤ
context_key strategy_id regime_id = (strategy_id, regime_id)

-- `==` of two keys.
unfoldable pub same_context : String × ℤ → String × ℤ → Bool
same_context (s, r) (t, q) = str_eq s t && eq_ℤ r q

abbrev pub Contexts : Type 0 → Type 0
Contexts F = List ((String × ℤ) × List (ExperienceRecord F))

module _ {F : Type 0} where
  -- `by_context[key].append(record)` on a `defaultdict(list)`.
  unfoldable pub add_to : String × ℤ → ExperienceRecord F → Contexts F → Contexts F
  add_to k r [] = (k, r ∷ []) ∷ []
  add_to k r ((j, rs) ∷ rest) =
      let others = add_to k r rest in
      if same_context k j then (j, rs ++ (r ∷ [])) ∷ rest else (j, rs) ∷ others

  -- `by_context.get(key, ())`
  unfoldable pub records_of : String × ℤ → Contexts F → List (ExperienceRecord F)
  records_of k [] = []
  records_of k ((j, rs) ∷ rest) = if same_context k j then rs else records_of k rest

-- `InMemoryExperienceStore`
pub record ExperienceStore (F : Type 0) : Type 0 where
  pub records : List (ExperienceRecord F)
  pub by_context : Contexts F

module _ {F : Type 0} where
  abbrev pub empty_experience : ExperienceStore F
  empty_experience = record { records = []; by_context = [] }

  -- `InMemoryExperienceStore.append`
  unfoldable pub append : ExperienceRecord F → ExperienceStore F → ExperienceStore F
  append r s = record {
    records = s.records ++ (r ∷ []);
    by_context = add_to (context_key r.strategy_id r.regime_id) r s.by_context;
  }

  -- `InMemoryExperienceStore.for_context`
  unfoldable pub for_context : ExperienceStore F → String → ℤ → List (ExperienceRecord F)
  for_context s strategy_id regime_id = records_of (context_key strategy_id regime_id) s.by_context

module _ {F : Type 0} ⦃fl : Float F⦄ (c : Codec F) (j : JsonText F) where
  -- `JsonlExperienceStore.load`
  unfoldable pub load_experience : Option (List j.Text) → Result (ExperienceStore F)
  load_experience file =
      load_file j (from_dict c) append (corrupt_experience_log "is not a valid ExperienceRecord")
        empty_experience file

  -- `JsonlExperienceStore.append`: the line is written before the record is kept.
  unfoldable pub append_logged :
      ExperienceStore F
      → Option (List j.Text)
      → ExperienceRecord F
      → ExperienceStore F × Option (List j.Text)
  append_logged s file r = (append r s, append_line j file (to_dict c r))
