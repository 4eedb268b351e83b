-- ===== src/Nlp/Store.antt =====
-- The stores of news items (src/nlp/store.py): in memory, and as a log of one JSON line per item.
use suky_tradin_bot.Base.{
  Bool, true, false, ◌&&◌, ◌||◌, String, str_eq, List, [], ◌∷◌, ◌++◌, Option, if◌then◌else◌,
}
use suky_tradin_bot.Common.Errors.{Result, corrupt_news_log}
use suky_tradin_bot.Common.Json.{Codec}
use suky_tradin_bot.Common.Jsonl.{JsonText, load_file, append_line}
use suky_tradin_bot.Float.{Float}
use suky_tradin_bot.Nlp.Item.{NewsItem}
use suky_tradin_bot.Nlp.ItemWire.{to_dict as item_to_dict, from_dict as item_from_dict}

-- `_dedup_key`
abbrev pub dedup_key : NewsItem → String × String
dedup_key item = (item.source, item.source_id)

-- `key in seen`
unfoldable pub is_seen : String × String → List (String × String) → Bool
is_seen k [] = false
is_seen (a, b) ((c, d) ∷ r) = (str_eq a c && str_eq b d) || is_seen (a, b) r

-- `InMemoryNewsItemStore`, its set of keys in the order of their arrival.
pub record NewsStore : Type 0 where
  pub items : List NewsItem
  pub seen : List (String × String)

abbrev pub empty_news : NewsStore
empty_news = record { items = []; seen = [] }

-- `InMemoryNewsItemStore.add`, with the store that it leaves.
unfoldable pub add_item : NewsStore → NewsItem → NewsStore × Bool
add_item s item =
    if is_seen (dedup_key item) s.seen
    then (s, false)
    else (record { items = s.items ++ (item ∷ []); seen = s.seen ++ (dedup_key item ∷ []) }, true)

unfoldable pub put_item : NewsItem → NewsStore → NewsStore
put_item item s = (add_item s item).0

module _ {F : Type 0} ⦃fl : Float F⦄ (c : Codec F) (j : JsonText F) where
  -- `JsonlNewsItemStore.load`
  unfoldable pub load : Option (List j.Text) → Result NewsStore
  load file =
      load_file j (item_from_dict c) put_item (corrupt_news_log "is not a valid NewsItem")
        empty_news file

  -- `JsonlNewsItemStore.add`, with the store, the file and the answer that it leaves.
  unfoldable pub add :
      NewsStore → Option (List j.Text) → NewsItem → NewsStore × Option (List j.Text) × Bool
  add s file item =
      let (t, added) = add_item s item in
      if added then (t, append_line j file (item_to_dict c item), true) else (t, file, false)
