-- ===== src/Base/Errors.antt =====
-- What a Go function with an `error` result gives back: a value, an error, or a panic (an index out
-- of range, a failed type assertion, a nil dereference).
use Prim.Native.String.{String}
use mathlib.Core.Path.{◌≡◌, refl, ap, ◌∙◌}
use mathlib.Core.Bool.{Bool, true, false}
use mathlib.Core.Option.{Option, none, some}

-- An error is its format string, `%w` being `wrapped`; the values formatted into it are left out.
-- `permission` is `os.ErrPermission`, and `joined` is `errors.Join`.
pub data Error : Type 0 where
  msg : String → Error
  wrapped : String → Error → Error
  joined : Error → Error → Error
  permission : Error

pub data Result {ℓ} (A : Type ℓ) : Type ℓ where
  ok : A → Result A
  err : Error → Result A
  panic : Result A

-- `x, err := m; if err != nil { return err }`, and a panic ends the call as well
infixl 8 ◌>>=◌ ◌>>◌
abbrev pub ◌>>=◌ {ℓ κ} : {X : Type ℓ} {Y : Type κ} → Result X → (X → Result Y) → Result Y
panic >>= next = panic
err e >>= next = err e
ok x >>= next = next x

abbrev pub ◌>>◌ {ℓ} : {Y : Type ℓ} → Result (Unit {0}) → Result Y → Result Y
check >> rest = check >>= λ _. rest

-- `if !b { return fmt.Errorf(s) }`
abbrev pub require : Bool → String → Result (Unit {0})
require true s = ok tt
require false s = err (msg s)

-- `if err != nil { return fmt.Errorf("s: %w", err) }`
abbrev pub wrap_err {ℓ} : {A : Type ℓ} → String → Result A → Result A
wrap_err s (ok a) = ok a
wrap_err s (err e) = err (wrapped s e)
wrap_err s panic = panic

-- `errors.Is(err, os.ErrPermission)`
abbrev pub is_permission : Error → Bool
is_permission (msg s) = false
is_permission (wrapped s e) = is_permission e
is_permission (joined e f) = elim (is_permission e) [ true ↦ true | false ↦ is_permission f ]
is_permission permission = true

pub ok_inj {ℓ} : {A : Type ℓ} {a b : A} → ok a ≡ ok b → a ≡ b
ok_inj h = cc h

-- A chain that succeeds has a first step that succeeds, and goes on from its value.
pub bind-eq-ok {ℓ κ} :
    {X : Type ℓ} {Y : Type κ} (r : Result X) (next : X → Result Y) {y : Y}
    → (r >>= next) ≡ ok y
    → (x : X) × (r ≡ ok x) × (next x ≡ ok y)
bind-eq-ok panic next e = cc
bind-eq-ok (err _) next e = cc
bind-eq-ok (ok x) next e = (x, refl, e)

-- A chain whose first step succeeds goes on from its value.
pub bind_ok {ℓ κ} :
    {X : Type ℓ} {Y : Type κ} (r : Result X) (next : X → Result Y) {x : X} {y : Y}
    → r ≡ ok x
    → next x ≡ ok y
    → (r >>= next) ≡ ok y
bind_ok panic next e h = cc e
bind_ok (err _) next e h = cc e
bind_ok (ok a) next e h = ap next (ok_inj e) ∙ h

pub wrap_err-eq-ok {ℓ} :
    {A : Type ℓ} (s : String) (m : Result A) {a : A} → wrap_err s m ≡ ok a → m ≡ ok a
wrap_err-eq-ok s (ok a) h = h
wrap_err-eq-ok s (err e) h = cc
wrap_err-eq-ok s panic h = cc

pub require-eq-ok : (b : Bool) (s : String) {u : Unit {0}} → require b s ≡ ok u → b ≡ true
require-eq-ok true s h = refl
require-eq-ok false s h = cc

-- A step of a method: what it gives back, and the receiver as it leaves it. An error or a panic
-- ends the method with the receiver as it stands.
abbrev pub continue {ℓ} : {S A B : Type ℓ} → Result A × S → (A → S → Result B × S) → Result B × S
continue (ok a, s) k = k a s
continue (err e, s) k = (err e, s)
continue (panic, s) k = (panic, s)

-- An invariant of the receiver holds after a step and its continuation, however they end.
pub continue-keeps {ℓ κ} :
    {S A B : Type ℓ} (P : S → Type κ) (x : Result A × S) (k : A → S → Result B × S)
    → P x.1
    → ((a : A) → x.0 ≡ ok a → P x.1 → P (k a x.1).1)
    → P (continue x k).1
continue-keeps P (ok a, s) k h step = step a refl h
continue-keeps P (err e, s) k h step = h
continue-keeps P (panic, s) k h step = h

-- A step with a continuation succeeds only if both do.
pub continue-eq-ok {ℓ} :
    {S A B : Type ℓ} (x : Result A × S) (k : A → S → Result B × S) {b : B}
    → (continue x k).0 ≡ ok b
    → (a : A) × (x.0 ≡ ok a) × (continue x k ≡ k a x.1)
continue-eq-ok (ok a, s) k h = (a, refl, refl)
continue-eq-ok (err e, s) k h = cc h
continue-eq-ok (panic, s) k h = cc h

-- A step of a method ends it, or is followed by the rest.
pub continue_cases {ℓ κ} :
    {S A B : Type ℓ} (P : Result B × S → Type κ) (m : Result A) (s : S) (k : A → S → Result B × S)
    → ((e : Error) → P (err e, s))
    → P (panic, s)
    → ((a : A) → m ≡ ok a → P (k a s))
    → P (continue (m, s) k)
continue_cases P (ok a) s k stop crash next = next a refl
continue_cases P (err e) s k stop crash next = stop e
continue_cases P panic s k stop crash next = crash

-- a value that is there, or an error
abbrev pub required {ℓ} : {A : Type ℓ} → String → Option A → Result A
required e none = err (msg e)
required e (some v) = ok v

pub required-eq-ok {ℓ} :
    {A : Type ℓ} (e : String) (o : Option A) {a : A} → required e o ≡ ok a → o ≡ some a
required-eq-ok e none h = cc h
required-eq-ok e (some x) h = cc h
