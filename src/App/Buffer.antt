-- ===== src/App/Buffer.antt =====
-- `BarBuffer` and `FeatureVectorBuffer` (src/app/buffer.py): one code for bars and for feature
-- vectors, which are a parameter here with the symbol that each carries.
use mathlib.Core.Path.{subst}
use mathlib.Core.List.{append-nil, append_assoc}
use suky_tradin_bot.Base.{
  ◌≡◌, refl, sym, ap, ◌∙◌, ◌⊎◌, inl, inr, ℕ, suc, ◌+◌, ◌≤◌, ◌<◌, leb, ltb, arith, Bool, String,
  str_eq, Option, none, some, List, [], ◌∷◌, ◌++◌, length, if◌then◌else◌, Bool-cases, eq_iff,
}
use suky_tradin_bot.Common.Dict.{Dict, lookup, insert, lookup-insert}
use suky_tradin_bot.Common.Errors.{Result, ok, ◌>>◌, reject_if}

pub record Buffer (A : Type 0) : Type 0 where
  pub max_size : ℕ
  pub queues : Dict (List A)

-- `Buffer(max)`
unfoldable pub buffer : {A : Type 0} → ℕ → Result (Buffer A)
buffer max_size = do
  reject_if (leb max_size 0) "max_bars must be positive"
  ok (record { max_size = max_size; queues = [] })

-- `deque(maxlen=max).append(a)`
unfoldable pub push : {A : Type 0} → ℕ → List A → A → List A
push max_size [] a = a ∷ []
push max_size (x ∷ xs) a =
    if ltb (length (x ∷ xs)) max_size then x ∷ (xs ++ (a ∷ [])) else xs ++ (a ∷ [])

unfoldable pub queue_or_empty : {A : Type 0} → Option (List A) → List A
queue_or_empty none = []
queue_or_empty (some xs) = xs

module _ {A : Type 0} (symbol : A → String) where
  -- `get`
  unfoldable pub get : Buffer A → String → List A
  get b t = queue_or_empty (lookup t b.queues)

  -- `add`
  unfoldable pub add : Buffer A → A → Buffer A
  add b a = record b { queues = insert (symbol a) (push b.max_size (get b (symbol a)) a) b.queues }

  -- `__len__`
  unfoldable pub size : Dict (List A) → ℕ
  size [] = 0
  size ((_, xs) ∷ rest) = length xs + size rest

  unfoldable pub add_all : Buffer A → List A → Buffer A
  add_all b [] = b
  add_all b (a ∷ rest) = add_all (add b a) rest

  -- The elements of a symbol.
  unfoldable pub history : String → List A → List A
  history t [] = []
  history t (a ∷ rest) = if str_eq (symbol a) t then a ∷ history t rest else history t rest

-- What a bounded queue holds of a history: the end of it, which is all of it or has the full length.
abbrev pub IsRecent : {A : Type 0} → ℕ → List A → List A → Type 0
IsRecent max_size past xs =
    (dropped : List _) × (dropped ++ xs ≡ past)
    × (length xs ≤ max_size)
    × ((dropped ≡ []) ⊎ (length xs ≡ max_size))

length_snoc : {A : Type 0} (xs : List A) (a : A) → length (xs ++ (a ∷ [])) ≡ suc (length xs)
length_snoc [] a = refl
length_snoc (x ∷ xs) a = ap suc (length_snoc xs a)

push-IsRecent :
    {A : Type 0} (m : ℕ) (past xs : List A) (a : A)
    → 0 < m
    → IsRecent m past xs
    → IsRecent m (past ++ (a ∷ [])) (push m xs a)
unfolding push
push-IsRecent m past [] a h (dropped, e, short, full) = (
  dropped,
  ap (λ u. u ++ (a ∷ [])) (sym (append-nil dropped) ∙ e),
  h,
  elim full [ inl none_dropped ↦ inl none_dropped | inr z ↦ ground arith ],
)
push-IsRecent m past (x ∷ xs) a h (dropped, e, short, full) =
    elim (Bool-cases (ltb (length (x ∷ xs)) m)) [
      | inl room ↦ rw room (
        dropped,
        sym (append_assoc dropped (x ∷ xs) (a ∷ [])) ∙ ap (λ u. u ++ (a ∷ [])) e,
        ground (arith, length_snoc xs a),
        elim full [ inl none_dropped ↦ inl none_dropped | inr z ↦ ground arith ],
      )
      | inr crowded ↦ rw crowded (
        dropped ++ (x ∷ []),
        append_assoc dropped (x ∷ []) (xs ++ (a ∷ []))
            ∙ sym (append_assoc dropped (x ∷ xs) (a ∷ []))
            ∙ ap (λ u. u ++ (a ∷ [])) e,
        ground (arith, length_snoc xs a),
        inr (ground (arith, length_snoc xs a)),
      )
    ]

module _ {A : Type 0} (symbol : A → String) where
  -- The maximum of a buffer does not change.
  abbrev IsRecentOf : Buffer A → String → List A → Type 0
  IsRecentOf b t past = IsRecent b.max_size past (get symbol b t)

  or_empty-if :
      (k t : String) (f : String → List A) (o : Option (List A))
      → queue_or_empty (if str_eq k t then some (f k) else o)
        ≡ (if str_eq k t then f t else queue_or_empty o)
  unfolding queue_or_empty
  or_empty-if k t f o = elim (Bool-cases (str_eq k t)) [
    | inl s ↦ rw s (ap f ((eq_iff k t).0 s))
    | inr s ↦ rw s refl
  ]

  get-add :
      (b : Buffer A) (a : A) (t : String)
      → get symbol (add symbol b a) t
        ≡ (if str_eq (symbol a) t then push b.max_size (get symbol b t) a else get symbol b t)
  unfolding get add
  get-add b a t =
      ap queue_or_empty
        (lookup-insert (symbol a) t (push b.max_size (get symbol b (symbol a)) a) b.queues)
      ∙ or_empty-if (symbol a) t (λ u. push b.max_size (get symbol b u) a) (lookup t b.queues)

  add_all_lem :
      (new : List A) (b : Buffer A) (past : List A) (t : String)
      → 0 < b.max_size
      → IsRecentOf b t past
      → IsRecentOf (add_all symbol b new) t (past ++ history symbol t new)
  unfolding add_all history add
  add_all_lem [] b past t h now = subst (λ p. IsRecentOf b t p) (sym (append-nil past)) now
  add_all_lem (a ∷ rest) b past t h now = elim (Bool-cases (str_eq (symbol a) t)) [
    | inl s ↦ rw s (
        subst (λ p. IsRecentOf (add_all symbol (add symbol b a) rest) t p)
          (append_assoc past (a ∷ []) (history symbol t rest))
          (add_all_lem rest (add symbol b a) (past ++ (a ∷ [])) t h (
            subst (λ q. IsRecent b.max_size (past ++ (a ∷ [])) q) (sym (got s))
              (push-IsRecent b.max_size past (get symbol b t) a h now))))
    | inr s ↦ rw s (
        add_all_lem rest (add symbol b a) past t h
          (subst (λ q. IsRecent b.max_size past q) (sym (got s)) now))
  ]
    where
      got :
          {v : Bool}
          → str_eq (symbol a) t ≡ v
          → get symbol (add symbol b a) t
            ≡ (if v then push b.max_size (get symbol b t) a else get symbol b t)
      got s =
          get-add b a t
          ∙ ap (λ v. if v then push b.max_size (get symbol b t) a else get symbol b t) s

  add_all_max : (new : List A) (b : Buffer A) → (add_all symbol b new).max_size ≡ b.max_size
  unfolding add_all add
  add_all_max [] b = refl
  add_all_max (a ∷ rest) b = add_all_max rest (add symbol b a)

  -- A buffer with room for at least one element is built; and after any elements were added to it,
  -- what it holds of a symbol is the end of that symbol's history: all of it, or as much as there is
  -- room for.
  pub add_all-IsRecent :
      (new : List A) (max_size : ℕ) (t : String)
      → 0 < max_size
      → (b : Buffer A) × (buffer max_size ≡ ok b)
        × IsRecent max_size (history symbol t new) (get symbol (add_all symbol b new) t)
  unfolding buffer get queue_or_empty lookup
  add_all-IsRecent new max_size t h = (
    record { max_size = max_size; queues = [] },
    ground arith,
    subst
        (λ n.
          IsRecent n (history symbol t new)
            (get symbol (add_all symbol (record { max_size = max_size; queues = [] }) new) t))
        (add_all_max new (record { max_size = max_size; queues = [] }))
        (add_all_lem new (record { max_size = max_size; queues = [] }) [] t h
          ([], refl, ground arith, inl refl)),
  )
