-- ===== src/Nlp/Log.antt =====
-- What the stores of src/nlp/store.py promise.
use mathlib.Core.List.{append-nil, append_assoc}
use suky_tradin_bot.Nlp.ItemWire.{
  to_dict as item_to_dict, from_dict as item_from_dict, from_dict-to_dict as item_back,
}
use suky_tradin_bot.Common.Errors.{ok, corrupt_news_log}
use suky_tradin_bot.Common.Jsonl.{
  JsonText, IsJsonText, is_plain, is_value_sorted, load_file-append, load_file,
}
use suky_tradin_bot.Common.Json.{Codec, IsCodec}
use suky_tradin_bot.Nlp.Item.{NewsItem, check_news_item}
use suky_tradin_bot.Float.{Float}
use suky_tradin_bot.Base.{
  String, List, ◌≡◌, ◌++◌, ◌||◌, [], Option, Bool-cases, sym, refl, inl, inr, ◌∷◌, ◌∙◌,
  if◌then◌else◌, arith, ap, Bool, false, true, eq_iff, str_eq, ◌&&◌,
}
use suky_tradin_bot.Nlp.Store.{
  NewsStore, empty_news, add_item, put_item, is_seen, dedup_key, load, add,
}

-- The items whose key is not in `keys` and not that of an earlier item of the list.
unfoldable pub firsts : List (String × String) → List NewsItem → List NewsItem
firsts keys [] = []
firsts keys (item ∷ rest) =
    if is_seen (dedup_key item) keys
    then firsts (dedup_key item ∷ keys) rest
    else (item ∷ firsts (dedup_key item ∷ keys) rest)

abbrev pick : NewsItem → List NewsItem → List (String × String) → Bool → List NewsItem
pick item rest keys b =
    if b then firsts (dedup_key item ∷ keys) rest else (item ∷ firsts (dedup_key item ∷ keys) rest)

unfoldable pub add_items : List NewsItem → NewsStore → NewsStore
add_items [] s = s
add_items (item ∷ rest) s = add_items rest (put_item item s)

is_seen-append :
    (k : String × String) (xs ys : List (String × String))
    → is_seen k (xs ++ ys) ≡ (is_seen k xs || is_seen k ys)
unfolding is_seen
is_seen-append k [] ys = refl
is_seen-append (a, b) ((c, d) ∷ xs) ys = ground (arith, is_seen-append (a, b) xs ys)

-- The two lists have the same keys.
abbrev SameKeys : List (String × String) → List (String × String) → Type 0
SameKeys xs ys = (k : String × String) → is_seen k xs ≡ is_seen k ys

-- A key that is there already changes nothing.
seen_again :
    (k i : String × String) (keys : List (String × String))
    → is_seen i keys ≡ true
    → is_seen k keys ≡ is_seen k (i ∷ keys)
unfolding is_seen
seen_again (a, b) (c, d) keys h = ground (arith, eq_iff a c, eq_iff b d)

put_item_seen :
    (item : NewsItem) (s : NewsStore) → is_seen (dedup_key item) s.seen ≡ true → put_item item s ≡ s
unfolding put_item add_item
put_item_seen item s h = rw (put_item, h) refl

put_item_new :
    (item : NewsItem) (s : NewsStore)
    → is_seen (dedup_key item) s.seen ≡ false
    → put_item item s
      ≡ record { items = s.items ++ (item ∷ []); seen = s.seen ++ (dedup_key item ∷ []) }
unfolding put_item add_item
put_item_new item s h = rw (put_item, h) refl

last_first : (x y : Bool) → (x || (y || false)) ≡ (y || x)
last_first x y = ground arith

seen_new :
    (k i : String × String) (xs ys : List (String × String))
    → SameKeys xs ys
    → is_seen k (xs ++ (i ∷ [])) ≡ is_seen k (i ∷ ys)
unfolding is_seen
seen_new (a, b) (c, d) xs ys same =
    is_seen-append (a, b) xs ((c, d) ∷ [])
    ∙ ap (λ t. t || ((str_eq a c && str_eq b d) || false)) (same (a, b))
    ∙ last_first (is_seen (a, b) ys) (str_eq a c && str_eq b d)

add_items_lem :
    (new : List NewsItem) (s : NewsStore) (keys : List (String × String))
    → SameKeys s.seen keys
    → (add_items new s).items ≡ s.items ++ firsts keys new
unfolding add_items firsts
add_items_lem [] s keys same = sym (append-nil s.items)
add_items_lem (item ∷ rest) s keys same = elim (Bool-cases (is_seen (dedup_key item) keys)) [
  | inl p ↦
      ap (λ u. (add_items rest u).items) (put_item_seen item s (same (dedup_key item) ∙ p))
      ∙ add_items_lem rest s (dedup_key item ∷ keys)
          (λ k. same k ∙ seen_again k (dedup_key item) keys p)
      ∙ ap (λ b. s.items ++ pick item rest keys b) (sym p)
  | inr p ↦
      ap (λ u. (add_items rest u).items) (put_item_new item s (same (dedup_key item) ∙ p))
      ∙ add_items_lem rest
          (record { items = s.items ++ (item ∷ []); seen = s.seen ++ (dedup_key item ∷ []) })
          (dedup_key item ∷ keys) (λ k. seen_new k (dedup_key item) s.seen keys same)
      ∙ append_assoc s.items (item ∷ []) (firsts (dedup_key item ∷ keys) rest)
      ∙ ap (λ b. s.items ++ pick item rest keys b) (sym p)
]

-- Adding any items to an empty store leaves the first of each source and identifier, in order.
pub add_items_dedups : (new : List NewsItem) → (add_items new empty_news).items ≡ firsts [] new
add_items_dedups new = add_items_lem new empty_news [] (λ k. refl)

module _ {F : Type 0} ⦃fl : Float F⦄ where
  plain :
      (c : Codec F) (j : JsonText F) (item : NewsItem)
      → is_plain j.key_lt (item_to_dict c item) ≡ true
  unfolding is_plain is_value_sorted item_to_dict
  plain c j item = refl

  -- A log that loads to a store loads to the store that an `add` of a checked item leaves.
  pub load-add :
      (c : Codec F) (j : JsonText F) (s : NewsStore) (file : Option (List j.Text)) (item : NewsItem)
      → IsCodec c
      → IsJsonText j
      → load c j file ≡ ok s
      → check_news_item item ≡ ok tt
      → let (t, after, _) = add c j s file item in load c j after ≡ ok t
  unfolding load add load_file add_item put_item
  load-add c j s file item laws texts loaded checked =
      elim (Bool-cases (is_seen (dedup_key item) s.seen)) [
        | inl p ↦ rw p loaded
        | inr p ↦ rw p (
            load_file-append j (item_from_dict c) put_item
              (corrupt_news_log "is not a valid NewsItem") file (item_to_dict c item) item
              empty_news s texts (plain c j item) (item_back c item laws checked) loaded
            ∙ ap ok (put_item_new item s p))
      ]
