-- ===== src/Errcode/Result.antt =====
-- The result of a function of the other packages that fails with an error of internal/errcode: the
-- code is kept, the message and the cause are not.
use agent_chat.Prelude.{if◌then◌else◌, ◌≡◌, refl, ap, ◌∙◌, Bool, true, false, Option, none, some}
use agent_chat.Errcode.{Code, not_found}

pub data Result {ℓ} (A : Type ℓ) : Type ℓ where
  ok : A → Result A
  err : Code → Result A

infixl 10 ◌>>=◌ ◌>>◌
abbrev pub ◌>>=◌ {ℓ κ} : {A : Type ℓ} {B : Type κ} → Result A → (A → Result B) → Result B
ok a >>= f = f a
err c >>= f = err c

abbrev pub ◌>>◌ {ℓ} : {B : Type ℓ} → Result (Unit {0}) → Result B → Result B
m >> k = m >>= λ _. k

-- Return the error unless the test holds.
abbrev pub require : Bool → Code → Result (Unit {0})
require true c = ok tt
require false c = err c

-- A row that is looked for, or NOT_FOUND.
abbrev pub or_not_found {ℓ} : {A : Type ℓ} → Option A → Result A
or_not_found none = err not_found
or_not_found (some a) = ok a

-- A step that succeeds, and then the rest.
pub then_ok {ℓ κ} :
    {A : Type ℓ} {B : Type κ} (m : Result A) (f : A → Result B) {a : A} {r : Result B}
    → m ≡ ok a
    → f a ≡ r
    → (m >>= f) ≡ r
then_ok m f e k = ap (λ x. x >>= f) e ∙ k

-- A step that fails, and so the whole.
pub then_err {ℓ κ} :
    {A : Type ℓ} {B : Type κ} (m : Result A) (f : A → Result B) {c : Code}
    → m ≡ err c
    → (m >>= f) ≡ err c
then_err m f e = ap (λ x. x >>= f) e

-- Rests that agree.
pub bind_ext {ℓ κ} :
    {A : Type ℓ} {B : Type κ} (m : Result A) (f g : A → Result B)
    → ((a : A) → f a ≡ g a)
    → (m >>= f) ≡ (m >>= g)
bind_ext (ok a) f g h = h a
bind_ext (err c) f g h = refl

-- What holds of the value, if there is one.
abbrev pub AllOk {ℓ} : {A : Type ℓ} → (A → Type 0) → Result A → Type 0
AllOk P (ok a) = P a
AllOk P (err c) = Unit

pub AllOk-bind {ℓ κ} :
    {A : Type ℓ} {B : Type κ} (P : A → Type 0) (Q : B → Type 0) (m : Result A) (f : A → Result B)
    → AllOk P m
    → ((a : A) → P a → AllOk Q (f a))
    → AllOk Q (m >>= f)
AllOk-bind P Q (ok a) f h k = k a h
AllOk-bind P Q (err c) f h k = tt

-- After a test.
pub AllOk-require :
    {B : Type 0} (Q : B → Type 0) (b : Bool) (c : Code) (f : Unit {0} → Result B)
    → (b ≡ true → AllOk Q (f tt))
    → AllOk Q (require b c >>= f)
AllOk-require Q true c f k = k refl
AllOk-require Q false c f k = tt

pub AllOk-if {ℓ} :
    {A : Type ℓ} (P : A → Type 0) (b : Bool) (x y : Result A)
    → AllOk P x
    → AllOk P y
    → AllOk P (if b then x else y)
AllOk-if P true x y h k = h
AllOk-if P false x y h k = k

-- Nothing is asked of the value.
pub AllOk-Unit {ℓ} : {A : Type ℓ} (m : Result A) → AllOk (λ _. Unit) m
AllOk-Unit (ok a) = tt
AllOk-Unit (err c) = tt
