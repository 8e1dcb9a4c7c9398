-- ===== src/Ai/Checked.antt =====
-- `Result<T, String>`: what a tool of crates/ai/src/finance_tools.rs gives, or why it was refused.
use andy.Base.{◌≡◌, refl, Bool, true, false, if◌then◌else◌, Text, Option, none, some}

pub data Checked {ℓ} (Value : Type ℓ) : Type ℓ where
  refused : Text → Checked Value
  fine : Value → Checked Value

infixl 5 ◌>>=◌ ◌>>◌
-- The `?` of the source.
abbrev pub ◌>>=◌ {ℓ κ} :
    {Value : Type ℓ} {Next : Type κ} → Checked Value → (Value → Checked Next) → Checked Next
refused reason >>= next = refused reason
fine value >>= next = next value

abbrev pub ◌>>◌ {ℓ κ} :
    {Value : Type ℓ} {Next : Type κ} → Checked Value → Checked Next → Checked Next
check >> next = check >>= λ value. next

-- `Option::map(f).transpose()?`
abbrev pub each {ℓ κ} :
    {Value : Type ℓ} {Next : Type κ} → (Value → Checked Next) → Option Value → Checked (Option Next)
each f none = fine none
each f (some value) = f value >>= λ next. fine (some next)

-- What a result satisfies if it is fine.
pub data Fine {ℓ κ} {Value : Type ℓ} (P : Value → Type κ) : Checked Value → Type (ℓ ⊔ κ) where
  holds : {value : Value} → P value → Fine P (fine value)
  moot : {reason : Text} → Fine P (refused reason)

pub Fine-bind {ℓ κ μ ν} :
    {Value : Type ℓ} {Next : Type κ} (P : Value → Type μ) (Q : Next → Type ν) (m : Checked Value)
    (f : Value → Checked Next)
    → Fine P m
    → ((value : Value) → P value → Fine Q (f value))
    → Fine Q (m >>= f)
Fine-bind P Q (fine value) f (holds h) k = k value h
Fine-bind P Q (refused reason) f moot k = moot

pub Fine-eq {ℓ κ} :
    {Value : Type ℓ} (P : Value → Type κ) (m : Checked Value)
    → ((value : Value) → m ≡ fine value → P value)
    → Fine P m
Fine-eq P (fine value) h = holds (h value refl)
Fine-eq P (refused reason) h = moot

pub Fine-if {ℓ κ} :
    {Value : Type ℓ} (P : Value → Type κ) (b : Bool) (m k : Checked Value)
    → (b ≡ true → Fine P m)
    → (b ≡ false → Fine P k)
    → Fine P (if b then m else k)
Fine-if P true m k h l = h refl
Fine-if P false m k h l = l refl

pub Fine-any {ℓ} : {A : Type ℓ} (m : Checked A) → Fine (λ a. Unit {0}) m
Fine-any (fine a) = holds tt
Fine-any (refused reason) = moot
