-- ===== src/Common/Json.antt =====
-- The dicts that `to_dict` returns and `from_dict` reads. A dict is read through `.[key]` only, so
-- what `from_dict` takes is a function of the key. Python would keep a value of another type than
-- its field's; here that is a `type_error`.
use suky_tradin_bot.Base.{
  ◌≡◌, Bool, Option, none, some, String, str_eq, List, [], ◌∷◌, if◌then◌else◌, ◌+◌, ◌≤◌, ◌^◌, All,
  map, refl,
}
use suky_tradin_bot.Base.Int.{ℤ, pos_part, neg_part}
use suky_tradin_bot.Common.Errors.{Result, ok, err, ◌>>=◌, key_error, type_error, value_error}
use suky_tradin_bot.Common.Time.{Datetime}
use suky_tradin_bot.Strategy.Decision.{Metadata}

mutual
  pub data Json (F : Type 0) : Type 0 where
    string : String → Json F
    float : F → Json F
    integer : ℤ → Json F
    boolean : Bool → Json F
    null : Json F
    strings : List String → Json F
    mapping : Metadata F → Json F
    object : Document F → Json F
    objects : Documents F → Json F

  pub data Document (F : Type 0) : Type 0 where
    end : Document F
    entry : String → Json F → Document F → Document F

  -- A list of dicts.
  pub data Documents (F : Type 0) : Type 0 where
    nothing : Documents F
    also : Document F → Documents F → Documents F

-- What a reader sees of a dict.
abbrev pub Mapping : Type 0 → Type 0
Mapping F = String → Option (Json F)

-- The texts of datetimes and the lengths of durations in seconds, as Python's own types have them.
pub record Codec (F : Type 0) : Type 0 where
  pub isoformat : Datetime → String
  pub fromisoformat : String → Result Datetime
  pub total_seconds : ℤ → F
  pub of_seconds : F → ℤ

-- At most 2^52 microseconds, forward or backward.
abbrev pub IsShort : ℤ → Type 0
IsShort d = pos_part d + neg_part d ≤ 2 ^ 52

-- A datetime is read back from its text. (What Python cannot hold, past the year 9999 or with an
-- offset of a day, has no text there, and the parameter may give it any.) A double of seconds keeps the microseconds of a duration
-- of up to 270 years, as Python documents; what is relied on is a duration of at most 2^52 microseconds.
pub record IsCodec {F : Type 0} (c : Codec F) : Type 0 where
  pub read_back : (t : Datetime) → c.fromisoformat (c.isoformat t) ≡ ok t
  pub seconds_back : (d : ℤ) → IsShort d → c.of_seconds (c.total_seconds d) ≡ d

module _ {F : Type 0} where
  abbrev pub get : Document F → Mapping F
  get end k = none
  get (entry j v d) k = if str_eq j k then some v else get d k

  abbrev pub dict : List (String × Json F) → Document F
  dict [] = end
  dict ((k, v) ∷ rest) = entry k v (dict rest)

  -- An enumeration, called on one of its values.
  abbrev pub choice {ℓ} : {E : Type ℓ} → List (String × E) → Json F → Result E
  choice [] j = err (value_error "is not a valid value")
  choice ((s, e) ∷ rest) (string t) = if str_eq s t then ok e else choice rest (string t)
  choice (_ ∷ rest) _ = err (value_error "is not a valid value")

  -- `data[key]`
  abbrev pub item : Mapping F → String → Result (Json F)
  item d k = elim (d k) [ none ↦ err (key_error k) | some v ↦ ok v ]

  abbrev pub to_string : Json F → Result String
  to_string (string s) = ok s
  to_string _ = err (type_error "str")

  abbrev pub to_float : Json F → Result F
  to_float (float x) = ok x
  to_float _ = err (type_error "float")

  -- A float or None.
  abbrev pub to_float? : Json F → Result (Option F)
  to_float? (float x) = ok (some x)
  to_float? null = ok none
  to_float? _ = err (type_error "float")

  abbrev pub of_float? : Option F → Json F
  of_float? none = null
  of_float? (some x) = float x

  abbrev pub to_integer : Json F → Result ℤ
  to_integer (integer n) = ok n
  to_integer _ = err (type_error "int")

  abbrev pub to_boolean : Json F → Result Bool
  to_boolean (boolean b) = ok b
  to_boolean _ = err (type_error "bool")

  abbrev pub to_strings : Json F → Result (List String)
  to_strings (strings xs) = ok xs
  to_strings _ = err (type_error "list")

  abbrev pub to_mapping : Json F → Result (Metadata F)
  to_mapping (mapping m) = ok m
  to_mapping _ = err (type_error "dict")

  abbrev pub to_object : Json F → Result (Mapping F)
  to_object (object d) = ok (get d)
  to_object _ = err (type_error "dict")

  -- A text or None.
  abbrev pub to_string? : Json F → Result (Option String)
  to_string? (string s) = ok (some s)
  to_string? null = ok none
  to_string? _ = err (type_error "str")

  abbrev pub of_string? : Option String → Json F
  of_string? none = null
  of_string? (some s) = string s

  abbrev pub to_object? : Json F → Result (Option (Mapping F))
  to_object? (object d) = ok (some (get d))
  to_object? null = ok none
  to_object? _ = err (type_error "dict")

  -- `data.get(key)`
  abbrev pub item_or_null : Mapping F → String → Json F
  item_or_null d k = elim (d k) [ none ↦ null | some v ↦ v ]

  unfoldable pub documents : List (Document F) → Documents F
  documents [] = nothing
  documents (d ∷ ds) = also d (documents ds)

  unfoldable pub mappings : Documents F → List (Mapping F)
  mappings nothing = []
  mappings (also d ds) = get d ∷ mappings ds

  abbrev pub to_objects : Json F → Result (List (Mapping F))
  to_objects (objects ds) = ok (mappings ds)
  to_objects _ = err (type_error "list")

  module _ (c : Codec F) where
    abbrev pub to_datetime : Json F → Result Datetime
    to_datetime j = to_string j >>= λ s. c.fromisoformat s

    abbrev pub to_duration : Json F → Result ℤ
    to_duration j = to_float j >>= λ x. ok (c.of_seconds x)

-- `data[key]`, as a value of the field's type.
abbrev pub at {ℓ} : {F : Type 0} {A : Type ℓ} → (Json F → Result A) → Mapping F → String → Result A
at read d k = item d k >>= read

-- `tuple(read(item) for item in items)`
unfoldable pub each : {F A : Type 0} → (Mapping F → Result A) → List (Mapping F) → Result (List A)
each read [] = ok []
each read (d ∷ ds) = do a ← read d; rest ← each read ds; ok (a ∷ rest)

-- `read(data) if data is not None else None`
abbrev pub optional :
    {F A : Type 0} → (Mapping F → Result A) → Option (Mapping F) → Result (Option A)
optional read none = ok none
optional read (some d) = read d >>= λ a. ok (some a)

-- Where every element is read back from its dict, the list is.
pub each_back :
    {F A : Type 0} (write : A → Document F) (read : Mapping F → Result A) (xs : List A)
    → All (λ x. read (get (write x)) ≡ ok x) xs
    → each read (mappings (documents (map write xs))) ≡ ok xs
unfolding each mappings documents
each_back write read [] h = refl
each_back write read (x ∷ xs) (e, h) = rw (e, each_back write read xs h) refl
