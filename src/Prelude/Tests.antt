-- ===== src/Prelude/Tests.antt =====
-- Boolean tests on the native numbers, the conditional, and the chain of calls that may fault.
use Prim.Native.Nat.{ℕ, ◌≤◌, ◌<◌, compare, Ordering}
use mathlib.Core.Path.{◌≡◌, refl}
use mathlib.Core.Logic.{◌↔◌, ◌≢◌, ◌⊎◌, inl, inr}
use mathlib.Core.Bool.{Bool, true, false}
use mathlib.Core.Option.{Option, none, some}
use native.Mathlib.Omega.{arith}

abbrev pub ltb : ℕ → ℕ → Bool
ltb a b = elim (compare a b) [ Ordering.lt ↦ true | _ ↦ false ]

abbrev pub leb : ℕ → ℕ → Bool
leb a b = elim (compare a b) [ Ordering.gt ↦ false | _ ↦ true ]

infix 50 ◌==◌
abbrev pub ◌==◌ : ℕ → ℕ → Bool
a == b = elim (compare a b) [ Ordering.eq ↦ true | _ ↦ false ]

infix 1 if◌then◌else◌
abbrev pub if◌then◌else◌ {ℓ} : {A : Type ℓ} → Bool → A → A → A
if true then x else y = x
if false then x else y = y

pub ltb→lt : (a b : ℕ) → ltb a b ≡ true → a < b
ltb→lt a b h = ground arith

pub lt→ltb : (a b : ℕ) → a < b → ltb a b ≡ true
lt→ltb a b h = ground arith

pub le→ltb : (a b : ℕ) → b ≤ a → ltb a b ≡ false
le→ltb a b h = ground arith

pub ltb→le : (a b : ℕ) → ltb a b ≡ false → b ≤ a
ltb→le a b h = ground arith

pub lt→leb : (a b : ℕ) → b < a → leb a b ≡ false
lt→leb a b h = ground arith

pub le→leb : (a b : ℕ) → a ≤ b → leb a b ≡ true
le→leb a b h = ground arith

pub ==_iff : (a b : ℕ) → ((a == b) ≡ true) ↔ (a ≡ b)
==_iff a b = ground arith

pub ne→== : (a b : ℕ) → a ≢ b → (a == b) ≡ false
ne→== a b h = ground arith

pub Bool-cases : (b : Bool) → (b ≡ true) ⊎ (b ≡ false)
Bool-cases true = inl refl
Bool-cases false = inr refl

pub Option-cases {ℓ} : {A : Type ℓ} (o : Option A) → (o ≡ none) ⊎ ((a : A) × (o ≡ some a))
Option-cases none = inl refl
Option-cases (some a) = inr (a, refl)

-- `none` is an access outside of an object; what follows it is not run.
infixl 5 ◌>>=◌
abbrev pub ◌>>=◌ {ℓ κ} : {A : Type ℓ} {B : Type κ} → Option A → (A → Option B) → Option B
none >>= f = none
some a >>= f = f a

pub >>=-assoc {ℓ κ μ} :
    {A : Type ℓ} {B : Type κ} {C : Type μ} (m : Option A) (f : A → Option B) (g : B → Option C)
    → (m >>= f >>= g) ≡ (m >>= λ a. f a >>= g)
>>=-assoc none f g = refl
>>=-assoc (some a) f g = refl

pub >>=-ext {ℓ κ} :
    {A : Type ℓ} {B : Type κ} (m : Option A) (f g : A → Option B)
    → ((a : A) → f a ≡ g a)
    → (m >>= f) ≡ (m >>= g)
>>=-ext none f g h = refl
>>=-ext (some a) f g h = h a

pub >>=-some {ℓ} : {A : Type ℓ} (m : Option A) → (m >>= λ a. some a) ≡ m
>>=-some none = refl
>>=-some (some a) = refl

-- Inversion of a chain that does not fault.
pub >>=-eq-some {ℓ κ} :
    {A : Type ℓ} {B : Type κ} (m : Option A) (f : A → Option B) {b : B}
    → (m >>= f) ≡ some b
    → (a : A) × (m ≡ some a) × (f a ≡ some b)
>>=-eq-some none f h = cc
>>=-eq-some (some a) f h = (a, refl, h)

-- What holds of the value, if there is one.
pub data Ends {ℓ} {A : Type ℓ} (P : A → Type 0) : Option A → Type ℓ where
  fails : Ends P none
  gives : {a : A} → P a → Ends P (some a)

module _ {ℓ κ} {A : Type ℓ} {B : Type κ} where
  pub Ends->>= :
      {P : A → Type 0} {Q : B → Type 0} {m : Option A} (f : A → Option B)
      → Ends P m
      → ((a : A) → P a → Ends Q (f a))
      → Ends Q (m >>= f)
  Ends->>= f fails hf = fails
  Ends->>= f (gives {a = x} h) hf = hf x h

  -- The continuation knows where its value comes from.
  pub Ends-from :
      {Q : B → Type 0} (m : Option A) (f : A → Option B)
      → ((a : A) → m ≡ some a → Ends Q (f a))
      → Ends Q (m >>= f)
  Ends-from none f hf = fails
  Ends-from (some x) f hf = hf x refl

module _ {ℓ} {A : Type ℓ} (P : A → Type 0) where
  abbrev AtValue : Option A → Type 0
  AtValue none = Unit
  AtValue (some a) = P a

  at_value : {o : Option A} → Ends P o → AtValue o
  at_value fails = tt
  at_value (gives h) = h

  pub Ends-at : {o : Option A} {a : A} → Ends P o → o ≡ some a → P a
  Ends-at h e = rw e at (at_value h)

pub Ends-if {ℓ} :
    {A : Type ℓ} {P : A → Type 0} (b : Bool) {x y : Option A}
    → Ends P x
    → Ends P y
    → Ends P (if b then x else y)
Ends-if true hx hy = hx
Ends-if false hx hy = hy

-- The branches know what the test gave.
pub Ends-test {ℓ} :
    {A : Type ℓ} {P : A → Type 0} (b : Bool) {x y : Option A}
    → (b ≡ true → Ends P x)
    → (b ≡ false → Ends P y)
    → Ends P (if b then x else y)
Ends-test true hx hy = hx refl
Ends-test false hx hy = hy refl

-- There is a value.
abbrev pub Inside {ℓ} : {A : Type ℓ} → Option A → Type ℓ
Inside {A} o = (a : A) × (o ≡ some a)

pub Inside-if {ℓ} :
    {A : Type ℓ} (b : Bool) {x y : Option A} → Inside x → Inside y → Inside (if b then x else y)
Inside-if true hx hy = hx
Inside-if false hx hy = hy

pub Inside->>= {ℓ κ} :
    {A : Type ℓ} {B : Type κ} {m : Option A} (f : A → Option B)
    → Inside m
    → ((a : A) → Inside (f a))
    → Inside (m >>= f)
Inside->>= f (a, e) h = rw e (h a)

-- A test that the value passes may be used.
pub Inside-test {ℓ} :
    {A : Type ℓ} (b : Bool) {x y : Option A}
    → (b ≡ true → Inside x)
    → (b ≡ false → Inside y)
    → Inside (if b then x else y)
Inside-test true hx hy = hx refl
Inside-test false hx hy = hy refl
