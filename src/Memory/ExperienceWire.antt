-- ===== src/Memory/ExperienceWire.antt =====
-- `to_dict` and `from_dict` of `ExperienceRecord` (src/memory/models.py), with their round trips.
use suky_tradin_bot.Base.{◌≡◌, refl, [], ◌∷◌}
use suky_tradin_bot.Common.Errors.{Result, ok, construct, ◌>>=◌}
use suky_tradin_bot.Common.Json.{
  Codec, IsCodec, IsShort, Document, Mapping, string, float, integer, boolean, mapping, dict, get,
  at, to_string, to_float, to_integer, to_boolean, to_mapping, to_datetime, to_duration,
}
use suky_tradin_bot.Float.{Float}
use suky_tradin_bot.Memory.Experience.{ExperienceRecord, check_experience_record}

module _ {F : Type 0} ⦃fl : Float F⦄ (c : Codec F) where
  unfoldable pub to_dict : ExperienceRecord F → Document F
  to_dict x = dict (
      ("symbol", string x.symbol)
      ∷ ("strategy_id", string x.strategy_id)
      ∷ ("regime_id", integer x.regime_id)
      ∷ ("production_allocation", float x.production_allocation)
      ∷ ("realized_pnl", float x.realized_pnl)
      ∷ ("realized_pnl_pct", float x.realized_pnl_pct)
      ∷ ("won", boolean x.won)
      ∷ ("entry_timestamp", string (c.isoformat x.entry_timestamp))
      ∷ ("exit_timestamp", string (c.isoformat x.exit_timestamp))
      ∷ ("holding_period_seconds", float (c.total_seconds x.holding_period))
      ∷ ("source_run_id", string x.source_run_id)
      ∷ ("metadata", mapping x.metadata)
      ∷ [])

  unfoldable pub from_dict : Mapping F → Result (ExperienceRecord F)
  from_dict d = do
    symbol ← at to_string d "symbol"
    strategy_id ← at to_string d "strategy_id"
    regime_id ← at to_integer d "regime_id"
    production_allocation ← at to_float d "production_allocation"
    realized_pnl ← at to_float d "realized_pnl"
    realized_pnl_pct ← at to_float d "realized_pnl_pct"
    won ← at to_boolean d "won"
    entry_timestamp ← at (to_datetime c) d "entry_timestamp"
    exit_timestamp ← at (to_datetime c) d "exit_timestamp"
    holding_period ← at (to_duration c) d "holding_period_seconds"
    source_run_id ← at to_string d "source_run_id"
    metadata ← at to_mapping d "metadata"
    construct check_experience_record (record {
      symbol = symbol;
      strategy_id = strategy_id;
      regime_id = regime_id;
      production_allocation = production_allocation;
      realized_pnl = realized_pnl;
      realized_pnl_pct = realized_pnl_pct;
      won = won;
      entry_timestamp = entry_timestamp;
      exit_timestamp = exit_timestamp;
      holding_period = holding_period;
      source_run_id = source_run_id;
      metadata = metadata;
    })

  -- A checked record whose holding period is of at most 2^52 microseconds is read back from its
  -- dict.
  pub from_dict-to_dict :
      (x : ExperienceRecord F)
      → IsCodec c
      → check_experience_record x ≡ ok tt
      → IsShort x.holding_period
      → from_dict (get (to_dict x)) ≡ ok x
  unfolding to_dict from_dict
  from_dict-to_dict x laws checked short =
      rw
        (
          laws.read_back x.entry_timestamp,
          laws.read_back x.exit_timestamp,
          laws.seconds_back x.holding_period short,
          checked,
        )
        refl
