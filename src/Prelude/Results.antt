-- ===== src/Prelude/Results.antt =====
-- Rust's `Result`, and the operators behind `?` and `map_err`.
use mathlib.Core.Path.{◌≡◌, refl}
use mathlib.Core.Logic.{◌⊎◌, inl, inr}
use mathlib.Core.Bool.{Bool, true, false}
use mathlib.Core.Option.{Option, none, some}

pub data Result {ℓ κ} (A : Type ℓ) (E : Type κ) : Type (ℓ ⊔ κ) where
  ok : A → Result A E
  err : E → Result A E

infixl 5 ◌>>=◌ ◌>>◌
abbrev pub ◌>>=◌ {ℓ κ μ} :
    {A : Type ℓ} {B : Type κ} {E : Type μ} → Result A E → (A → Result B E) → Result B E
ok a >>= f = f a
err e >>= f = err e

abbrev pub ◌>>◌ {ℓ κ} : {B : Type ℓ} {E : Type κ} → Result (Unit {0}) E → Result B E → Result B E
m >> k = m >>= λ _. k

abbrev pub map_err {ℓ κ μ} :
    {A : Type ℓ} {E : Type κ} {F : Type μ} → (E → F) → Result A E → Result A F
map_err f (ok a) = ok a
map_err f (err e) = err (f e)

-- `Option::ok_or_else`.
abbrev pub ok_or {ℓ κ} : {A : Type ℓ} {E : Type κ} → E → Option A → Result A E
ok_or e none = err e
ok_or e (some a) = ok a

abbrev pub is_ok {ℓ κ} : {A : Type ℓ} {E : Type κ} → Result A E → Bool
is_ok (ok a) = true
is_ok (err e) = false

pub Result-cases {ℓ κ} :
    {A : Type ℓ} {E : Type κ} (r : Result A E) → ((a : A) × (r ≡ ok a)) ⊎ ((e : E) × (r ≡ err e))
Result-cases (ok a) = inl (a, refl)
Result-cases (err e) = inr (e, refl)

-- `?` after a call that changes the state: an error is converted and ends the function.
abbrev pub question {ℓ κ μ} :
    {S A B : Type ℓ} {E : Type κ} {F : Type μ}
    → (E → F)
    → S × Result A E
    → (S → A → S × Result B F)
    → S × Result B F
question from (s, ok a) next = next s a
question from (s, err e) next = (s, err (from e))

pub question_ok {ℓ κ μ} :
    {S A B : Type ℓ} {E : Type κ} {F : Type μ} (from : E → F) (x : S × Result A E)
    (next : S → A → S × Result B F) {b : B}
    → (question from x next).1 ≡ ok b
    → (a : A) × (x.1 ≡ ok a) × (question from x next ≡ next x.0 a)
question_ok from (s, ok a) next h = (a, refl, refl)
question_ok from (s, err e) next h = cc

pub question_of {ℓ κ μ} :
    {S A B : Type ℓ} {E : Type κ} {F : Type μ} (from : E → F) (x : S × Result A E)
    (next : S → A → S × Result B F) {a : A}
    → x.1 ≡ ok a
    → question from x next ≡ next x.0 a
question_of from (s, ok a) next h = cc
question_of from (s, err e) next h = cc

pub question_err {ℓ κ μ} :
    {S A B : Type ℓ} {E : Type κ} {F : Type μ} (from : E → F) (x : S × Result A E)
    (next : S → A → S × Result B F) {e : E}
    → x.1 ≡ err e
    → question from x next ≡ (x.0, err (from e))
question_err from (s, ok a) next h = cc
question_err from (s, err e) next h = cc

pub map_err_ok {ℓ κ μ} :
    {A : Type ℓ} {E : Type κ} {F : Type μ} (f : E → F) (r : Result A E) {a : A}
    → map_err f r ≡ ok a
    → r ≡ ok a
map_err_ok f (ok a) h = cc
map_err_ok f (err e) h = cc
