-- ===== src/Prelude/Outcome.antt =====
-- How a Go call ends: it returns, it panics, or the model's fuel runs out; and the pairs
-- `(value, error)` that Go functions return.
use mathlib.Core.Path.{◌≡◌, refl}
use mathlib.Core.Logic.{◌⊎◌, inl, inr}
use mathlib.Core.Bool.{Bool, true, false}
use mathlib.Core.Option.{Option, none, some}
use cloud_prophet.Prelude.Tests.{if◌then◌else◌}

-- A Go result `(value, error)` of which exactly one is there.
pub data Result {ℓ κ} (E : Type ℓ) (V : Type κ) : Type (ℓ ⊔ κ) where
  error : E → Result E V
  value : V → Result E V

pub data Run {ℓ} (V : Type ℓ) : Type ℓ where
  out_of_fuel panic : Run V
  ok : V → Run V

-- A nil dereference or an index out of range.
abbrev pub or_panic {ℓ} : {V : Type ℓ} → Option V → Run V
or_panic none = panic
or_panic (some v) = ok v

-- The value of a call that returns, or `d`.
abbrev pub run_value {ℓ} : {V : Type ℓ} → Run V → V → V
run_value out_of_fuel d = d
run_value panic d = d
run_value (ok v) d = v

infixl 5 ◌>>=◌
abbrev pub ◌>>=◌ {ℓ κ} : {V : Type ℓ} {W : Type κ} → Run V → (V → Run W) → Run W
out_of_fuel >>= next = out_of_fuel
panic >>= next = panic
ok v >>= next = next v

-- The call comes back, with a value of which `Q` holds.
pub data Returns {ℓ κ} {V : Type ℓ} (Q : V → Type κ) : Run V → Type (ℓ ⊔ κ) where
  returns : {v : V} → Q v → Returns Q (ok v)

pub Returns-run_value {ℓ κ} :
    {V : Type ℓ} {Q : V → Type κ} {call : Run V} → Returns Q call → (d : V) → Q (run_value call d)
Returns-run_value (returns holds) d = holds

pub Returns-inv {ℓ κ} :
    {V : Type ℓ} {Q : V → Type κ} {call : Run V} → Returns Q call → (v : V) × (call ≡ ok v) × Q v
Returns-inv (returns holds) = (_, refl, holds)

pub Returns-if {ℓ κ} :
    {V : Type ℓ} {Q : V → Type κ} {yes no : Run V} (test : Bool)
    → (test ≡ true → Returns Q yes)
    → (test ≡ false → Returns Q no)
    → Returns Q (if test then yes else no)
Returns-if false on_yes on_no = on_no refl
Returns-if true on_yes on_no = on_yes refl

pub Returns-map {ℓ κ κ'} :
    {V : Type ℓ} {Q : V → Type κ} {R : V → Type κ'} {call : Run V}
    → Returns Q call
    → ((v : V) → Q v → R v)
    → Returns R call
Returns-map (returns {v = v} holds) weaken = returns (weaken v holds)

pub Returns-bind {ℓ κ ℓ' κ'} :
    {V : Type ℓ} {W : Type ℓ'} {Q : V → Type κ} {R : W → Type κ'} {call : Run V} {next : V → Run W}
    → Returns Q call
    → ((v : V) → Q v → Returns R (next v))
    → Returns R (call >>= next)
Returns-bind (returns {v = v} holds) go = go v holds

pub Returns-both {ℓ κ κ'} :
    {V : Type ℓ} {Q : V → Type κ} {R : V → Type κ'} {call : Run V}
    → Returns Q call
    → Returns R call
    → Returns (λ v. Q v × R v) call
Returns-both (returns q) (returns r) = returns (q, r)

-- if err != nil { return err }, and go on with the value.
abbrev pub and_then {ℓ κ ℓ'} :
    {E : Type ℓ} {V : Type κ} {W : Type ℓ'} → Result E V → (V → Result E W) → Result E W
and_then (error e) next = error e
and_then (value v) next = next v

-- `Q` holds of the value, if there is one.
pub data OnValue {ℓ κ ℓ'} {E : Type ℓ} {V : Type κ} (Q : V → Type ℓ')
    : Result E V → Type (ℓ ⊔ κ ⊔ ℓ') where
  no_value : {e : E} → OnValue Q (error e)
  has_value : {v : V} → Q v → OnValue Q (value v)

pub OnValue-and_then {ℓ κ ℓ' κ' κ''} :
    {E : Type ℓ} {V : Type κ} {W : Type ℓ'} {Q : V → Type κ'} {R : W → Type κ''} {call : Result E V}
    {next : V → Result E W}
    → OnValue Q call
    → ((v : V) → Q v → OnValue R (next v))
    → OnValue R (and_then call next)
OnValue-and_then no_value go = no_value
OnValue-and_then (has_value {v = v} holds) go = go v holds

pub OnValue-map {ℓ κ ℓ' κ'} :
    {E : Type ℓ} {V : Type κ} {Q : V → Type ℓ'} {R : V → Type κ'} {call : Result E V}
    → OnValue Q call
    → ((v : V) → Q v → R v)
    → OnValue R call
OnValue-map no_value weaken = no_value
OnValue-map (has_value {v = v} holds) weaken = has_value (weaken v holds)

pub OnValue-if {ℓ κ ℓ'} :
    {E : Type ℓ} {V : Type κ} {Q : V → Type ℓ'} {yes no : Result E V} (test : Bool)
    → (test ≡ true → OnValue Q yes)
    → (test ≡ false → OnValue Q no)
    → OnValue Q (if test then yes else no)
OnValue-if true on_yes on_no = on_yes refl
OnValue-if false on_yes on_no = on_no refl

pub OnValue-both {ℓ κ ℓ' κ'} :
    {E : Type ℓ} {V : Type κ} {Q : V → Type ℓ'} {R : V → Type κ'} {call : Result E V}
    → OnValue Q call
    → OnValue R call
    → OnValue (λ v. Q v × R v) call
OnValue-both no_value r = no_value
OnValue-both (has_value q) (has_value r) = has_value (q, r)

pub Result-cases {ℓ κ} :
    {E : Type ℓ} {V : Type κ} (r : Result E V)
    → ((e : E) × (r ≡ error e)) ⊎ ((v : V) × (r ≡ value v))
Result-cases (error e) = inl (e, refl)
Result-cases (value v) = inr (v, refl)
