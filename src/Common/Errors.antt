-- ===== src/Common/Errors.antt =====
-- Exceptions as values. An exception is its class with the fixed text at the head of its message;
-- what an f-string adds to a message is left out, since no code of the repository reads it back.
use suky_tradin_bot.Base.{◌≡◌, refl, Bool, String, if◌then◌else◌, arith, ◌≢◌, ◌≢◌}

pub data Error : Type 0 where
  value_error : String → Error
  not_implemented : String → Error
  invalid_sizing_result : String → Error
  mismatched_signal : String → Error
  contract_violation : String → Error
  strategy_not_found : String → Error
  ambiguous_strategy : Error
  unsupported_regime : Error
  assertion_error : Error
  retry_exhausted : String → Error
  transient_broker : String → Error
  key_error : String → Error
  type_error : String → Error
  nlp_error : String → Error
  corrupt_news_log : String → Error
  corrupt_experience_log : String → Error
  insufficient_replay_history : String → Error
  unhealthy_platform : String → Error
  runtime_validation : String → Error
  deployment_validation : String → Error
  no_rollback_target : Error
  data_fetch : String → Error
  overflow_error : String → Error

-- What a call that may raise leaves: an exception or a value.
pub data Result {κ} (T : Type κ) : Type κ where
  err : Error → Result T
  ok : T → Result T

-- The code after a call runs on its value; an exception leaves the function.
abbrev pub ◌>>=◌ {κ ι} :
    {T : Type κ} {U : Type ι} (call : Result T) (rest : T → Result U) → Result U
err raised >>= rest = err raised
ok value >>= rest = rest value

abbrev pub ◌>>◌ {κ} : {T : Type κ} (check : Result (Unit {0})) (rest : Result T) → Result T
check >> rest = check >>= λ _. rest

infixl 5 ◌>>◌ ◌>>=◌
-- `if c: raise e`
abbrev pub raise_if : Bool → Error → Result (Unit {0})
raise_if c e = if c then err e else ok tt

-- `if c: raise ValueError(text)`
abbrev pub reject_if : Bool → String → Result (Unit {0})
reject_if c text = raise_if c (value_error text)

-- A frozen dataclass is built, then checked by its `__post_init__`.
abbrev pub construct {ℓ} : {A : Type ℓ} → (A → Result (Unit {0})) → A → Result A
construct check a = check a >>= λ _. ok a

pub ok-injective : {A : Type 0} {a b : A} → ◌≡◌ {A = Result A} (ok a) (ok b) → a ≡ b
ok-injective h = ground arith

pub err≢ok : {A : Type 0} {x : Error} {a : A} → err x ≢ ok a
err≢ok h = cc

-- When a block succeeds, so did its first call, and the rest succeeds on that call's value.
pub bind-eq-ok {κ ι} :
    {T : Type κ} {U : Type ι} (call : Result T) (rest : T → Result U) {answer : U}
    → (call >>= rest) ≡ ok answer
    → (value : T) × (call ≡ ok value) × (rest value ≡ ok answer)
bind-eq-ok (err raised) rest h = cc
bind-eq-ok (ok value) rest h = (value, refl, h)

-- A constructor that succeeds returns its argument, which passed the checks.
pub construct-eq-ok {ℓ} :
    {A : Type ℓ} (check : A → Result (Unit {0})) (a : A) {e : A}
    → construct check a ≡ ok e
    → (check a ≡ ok tt) × (a ≡ e)
construct-eq-ok check a h = ground arith
