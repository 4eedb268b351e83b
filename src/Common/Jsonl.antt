-- ===== src/Common/Jsonl.antt =====
-- The append-only logs of one JSON document per line that src/nlp/store.py and src/memory/store.py
-- keep. A file that is there is the list of its lines; `json` and the texts that it works on are a
-- parameter.
use suky_tradin_bot.Base.{
  ◌≡◌, refl, Bool, true, false, String, ◌&&◌, List, [], ◌∷◌, ◌++◌, Option, none, some,
  if◌then◌else◌, ap, ◌∙◌,
}
use suky_tradin_bot.Common.Errors.{
  Result, ok, err, Error, ◌>>=◌, value_error, key_error, bind-eq-ok,
}
use suky_tradin_bot.Common.Json.{Document, Mapping, Json, get, mapping, object, objects, end, entry}
use suky_tradin_bot.Strategy.Decision.{Metadata}

-- `json.dumps(d, sort_keys=True)`, `json.loads`, `str.strip`, `not s` and the line that a text and
-- the written newline make; `<` of two texts, by which `sort_keys` sorts.
pub record JsonText (F : Type 0) : Type 1 where
  pub Text : Type 0
  pub dumps : Document F → Text
  pub loads : Text → Result (Mapping F)
  pub strip : Text → Text
  pub is_blank_text : Text → Bool
  pub line : Text → Text
  pub key_lt : String → String → Bool

-- The keys of a dict are in the order that `sort_keys` gives them. Two dicts that differ only in
-- the order of their keys are `==`, so every dict has an equal one in this order.
unfoldable pub is_key_sorted : {F : Type 0} → (String → String → Bool) → Metadata F → Bool
is_key_sorted lt [] = true
is_key_sorted lt ((k, v) ∷ []) = true
is_key_sorted lt ((k, v) ∷ (j, w) ∷ rest) = lt k j && is_key_sorted lt ((j, w) ∷ rest)

unfoldable pub is_value_sorted : {F : Type 0} → (String → String → Bool) → Json F → Bool
is_value_sorted lt (mapping m) = is_key_sorted lt m
is_value_sorted lt (object _) = false
is_value_sorted lt (objects _) = false
is_value_sorted lt _ = true

-- A record's dict with no dict in it but sorted metadata. (Its own entries may stand in any order,
-- since they are only read by their keys.)
unfoldable pub is_plain : {F : Type 0} → (String → String → Bool) → Document F → Bool
is_plain lt end = true
is_plain lt (entry k v d) = is_value_sorted lt v && is_plain lt d

-- A document's text has no spaces around it and is not empty, and that of a plain one is read back.
pub record IsJsonText {F : Type 0} (j : JsonText F) : Type 0 where
  pub strip-line : (d : Document F) → j.strip (j.line (j.dumps d)) ≡ j.dumps d
  pub dumps_full : (d : Document F) → j.is_blank_text (j.dumps d) ≡ false
  pub loads-dumps : (d : Document F) → is_plain j.key_lt d ≡ true → j.loads (j.dumps d) ≡ ok (get d)

-- `except (json.JSONDecodeError, KeyError, ValueError)`: the first is a ValueError.
abbrev pub corrupted {ℓ} : {A : Type ℓ} → Error → Result A → Result A
corrupted corrupt (err (value_error _)) = err corrupt
corrupted corrupt (err (key_error _)) = err corrupt
corrupted corrupt r = r

-- `f.write(json.dumps(d)); f.write("\n")` on a file opened to append.
abbrev pub append_line :
    {F : Type 0} (j : JsonText F) → Option (List j.Text) → Document F → Option (List j.Text)
append_line j none d = some (j.line (j.dumps d) ∷ [])
append_line j (some lines) d = some (lines ++ (j.line (j.dumps d) ∷ []))

module _ {F A S : Type 0} (j : JsonText F) (read : Mapping F → Result A) (put : A → S → S)
    (corrupt : Error) where
  open j use {Text, dumps, loads, strip, is_blank_text, line}

  -- One line of the file.
  unfoldable pub load_line : S → Text → Result S
  load_line store raw =
      if is_blank_text (strip raw)
      then ok store
      else (corrupted corrupt (loads (strip raw) >>= read) >>= λ a. ok (put a store))

  -- The loop of `load` over the lines.
  unfoldable pub load_lines : List Text → S → Result S
  load_lines [] store = ok store
  load_lines (raw ∷ rest) store = load_line store raw >>= load_lines rest

  -- `load`: a missing file is an empty store.
  unfoldable pub load_file : S → Option (List Text) → Result S
  load_file empty none = ok empty
  load_file empty (some lines) = load_lines lines empty

  -- A line that `d` was written to is read as what `read` makes of `d`.
  load_line-dumps :
      (d : Document F) (a : A) (s : S)
      → IsJsonText j
      → is_plain j.key_lt d ≡ true
      → read (get d) ≡ ok a
      → load_lines (line (dumps d) ∷ []) s ≡ ok (put a s)
  unfolding load_line load_lines
  load_line-dumps d a s laws plain h =
      rw (laws.strip-line d, laws.dumps_full d, laws.loads-dumps d plain, h) refl

  load_lines-append :
      (xs ys : List Text) (s t : S)
      → load_lines xs s ≡ ok t
      → load_lines (xs ++ ys) s ≡ load_lines ys t
  unfolding load_lines
  load_lines-append [] ys s t h = ap (λ r. r >>= load_lines ys) h
  load_lines-append (x ∷ xs) ys s t h =
      let (u, e, k) = bind-eq-ok (load_line s x) (load_lines xs) h in
      rw e (load_lines-append xs ys u t k)

  -- A document that is appended to a log is the last that a load puts into the store.
  pub load_file-append :
      (file : Option (List Text)) (d : Document F) (a : A) (empty s : S)
      → IsJsonText j
      → is_plain j.key_lt d ≡ true
      → read (get d) ≡ ok a
      → load_file empty file ≡ ok s
      → load_file empty (append_line j file d) ≡ ok (put a s)
  unfolding load_file
  load_file-append none d a empty s laws plain h k =
      load_line-dumps d a empty laws plain h ∙ ap (λ r. r >>= λ s. ok (put a s)) k
  load_file-append (some lines) d a empty s laws plain h k =
      load_lines-append lines (line (dumps d) ∷ []) empty s k ∙ load_line-dumps d a s laws plain h
