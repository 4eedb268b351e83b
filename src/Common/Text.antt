-- ===== src/Common/Text.antt =====
-- Python texts: the test `not s.strip()` and `str.join`.
use Prim.Native.Char.{code}
use Prim.Native.String.append
use suky_tradin_bot.Base.{
  ℕ, ◌≡◌, refl, ap, ◌∙◌, Bool, true, false, ◌&&◌, ◌||◌, String, ◌<>◌, List, [], ◌∷◌, leb, ◌==◌,
  str_eq, arith,
}

-- The characters that `str.strip` removes.
is_space : ℕ → Bool
is_space c =
    (leb 9 c && leb c 13)
    || (leb 28 c && leb c 32)
    || c == 0x85
    || c == 0xa0
    || c == 0x1680
    || (leb 0x2000 c && leb c 0x200a)
    || c == 0x2028
    || c == 0x2029
    || c == 0x202f
    || c == 0x205f
    || c == 0x3000

-- `not s.strip()`
unfoldable pub is_blank : String → Bool
unfolding is_space
is_blank String.[] = true
is_blank (String.◌∷◌ c s) = is_space (code c) && is_blank s

-- `not s`
abbrev pub is_nil : String → Bool
is_nil String.[] = true
is_nil (String.◌∷◌ c s) = false

&&_assoc : (a b c : Bool) → (a && (b && c)) ≡ ((a && b) && c)
&&_assoc true b c = refl
&&_assoc false b c = refl

pub is_blank-<> : (s t : String) → is_blank (s <> t) ≡ (is_blank s && is_blank t)
unfolding is_blank
is_blank-<> String.[] t = λ i. is_blank (append.nil t i)
is_blank-<> (String.◌∷◌ c s) t =
    (λ i. is_blank (append.cons c s t i))
    ∙ ap (λ b. is_space (code c) && b) (is_blank-<> s t)
    ∙ &&_assoc (is_space (code c)) (is_blank s) (is_blank t)

-- `sep.join(parts)`
unfoldable pub join : String → List String → String
join sep [] = ""
join sep (s ∷ []) = s
join sep (s ∷ t ∷ r) = s <> sep <> join sep (t ∷ r)

-- `text in texts`
unfoldable pub contains : String → List String → Bool
contains s [] = false
contains s (t ∷ r) = str_eq t s || contains s r

pub is_blank-join :
    (sep s : String) (r : List String) → is_blank s ≡ false → is_blank (join sep (s ∷ r)) ≡ false
unfolding join
is_blank-join sep s [] h = h
is_blank-join sep s (t ∷ r) h = simp is_blank-<> (rw h)

pub is_blank-prefix : (s t : String) → is_blank s ≡ false → is_blank (s <> t) ≡ false
is_blank-prefix s t h = rw is_blank-<> (rw h)

pub is_blank-suffix : (s t : String) → is_blank t ≡ false → is_blank (s <> t) ≡ false
is_blank-suffix s t h = ground (arith, is_blank-<> s t)

pub &&_false : (b : Bool) → (b && false) ≡ false
&&_false true = refl
&&_false false = refl
