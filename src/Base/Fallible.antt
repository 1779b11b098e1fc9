-- ===== src/Base/Fallible.antt =====
-- The outcome of code that may fail to return: a failed `assert`, an access through NULL or outside
-- an array, or a retry loop whose attempt always fails.
use mathlib.Core.Path.{◌≡◌, refl, ap, subst}
use mathlib.Core.Logic.{◌≢◌}
use mathlib.Core.Bool.{Bool, true, false}
use mathlib.Core.Option.{Option, none, some}
use libevent_paxos.Base.Tests.{if◌then◌else◌}

pub data Fault : Type 0 where
  assert_failed : Fault
  null_deref : Fault
  out_of_bounds : Fault
  never_ends : Fault

pub data Outcome {ℓ} (A : Type ℓ) : Type ℓ where
  ok : A → Outcome A
  crash : Fault → Outcome A

infixl 5 ◌>>=◌
-- What comes after a fault is not run.
abbrev pub ◌>>=◌ {ℓ κ} :
    {X : Type ℓ} {Y : Type κ} (first : Outcome X) (next : X → Outcome Y) → Outcome Y
crash fault >>= next = crash fault
ok x >>= next = next x

-- A run that ends well had a first part that did.
pub >>=-eq-ok {ℓ κ} :
    {X : Type ℓ} {Y : Type κ} (first : Outcome X) (next : X → Outcome Y) {end : Y}
    → (first >>= next) ≡ ok end
    → (middle : X) × (first ≡ ok middle) × (next middle ≡ ok end)
>>=-eq-ok (crash fault) next done = cc
>>=-eq-ok (ok x) next done = (x, refl, done)

pub crash≢ok {ℓ} : {A : Type ℓ} {f : Fault} {a : A} → crash f ≢ ok a
crash≢ok e = cc

pub ok-injective {ℓ} : {A : Type ℓ} {a b : A} → ok a ≡ ok b → a ≡ b
ok-injective e = cc

-- What follows may be replaced by what agrees with it on the results that can come.
pub >>=-cong {ℓ κ} :
    {X : Type ℓ} {Y : Type κ} (first : Outcome X) (next other : X → Outcome Y)
    → ((x : X) → first ≡ ok x → next x ≡ other x)
    → (first >>= next) ≡ (first >>= other)
>>=-cong (crash fault) next other agree = refl
>>=-cong (ok x) next other agree = agree x refl

pub >>=-assoc {ℓ κ ι} :
    {X : Type ℓ} {Y : Type κ} {Z : Type ι} (first : Outcome X) (next : X → Outcome Y)
    → (last : Y → Outcome Z) → (first >>= next >>= last) ≡ (first >>= λ x. next x >>= last)
>>=-assoc (crash fault) next last = refl
>>=-assoc (ok x) next last = refl

-- Code that comes to an end: with a result of which `P` holds, or with a bad access to memory.
pub data Ends {ℓ κ} {A : Type ℓ} (P : A → Type κ) : Outcome A → Type (ℓ ⊔ κ) where
  ends_ok : {a : A} → P a → Ends P (ok a)
  ends_null : Ends P (crash null_deref)
  ends_out : Ends P (crash out_of_bounds)

pub Ends->>= {ℓ κ ι ν} :
    {X : Type ℓ} {Y : Type κ} {P : X → Type ι} {Q : Y → Type ν} {first : Outcome X}
    (next : X → Outcome Y)
    → Ends P first
    → ((x : X) → P x → Ends Q (next x))
    → Ends Q (first >>= next)
Ends->>= next (ends_ok p) after = after _ p
Ends->>= next ends_null after = ends_null
Ends->>= next ends_out after = ends_out

pub Ends-ok {ℓ κ} :
    {A : Type ℓ} {P : A → Type κ} {o : Outcome A} {a : A} → Ends P o → o ≡ ok a → P a
Ends-ok {P = P} (ends_ok p) same = subst P (ok-injective same) p
Ends-ok ends_null same = absurd (crash≢ok same)
Ends-ok ends_out same = absurd (crash≢ok same)

pub Ends→not-never_ends {ℓ κ} :
    {A : Type ℓ} {P : A → Type κ} {o : Outcome A} → Ends P o → o ≢ crash never_ends
Ends→not-never_ends (ends_ok p) same = cc
Ends→not-never_ends ends_null same = cc
Ends→not-never_ends ends_out same = cc

pub Ends-if {ℓ κ} :
    {A : Type ℓ} {P : A → Type κ} {x y : Outcome A} (b : Bool)
    → Ends P x
    → Ends P y
    → Ends P (if b then x else y)
Ends-if true ends other = ends
Ends-if false ends other = other

-- By cases on an option, with an outcome for each.
pub Ends-Option {ℓ κ ι} :
    {A : Type ℓ} {X : Type ι} {P : A → Type κ} {x : Outcome A} (f : X → Outcome A)
    → (o : Option X) → Ends P x
    → ((v : X) → Ends P (f v))
    → Ends P (elim o [ none ↦ x | some v ↦ f v ])
Ends-Option f none ends others = ends
Ends-Option f (some v) ends others = others v

-- What comes after a first part whose result is known.
pub >>=-ok {ℓ κ} :
    {X : Type ℓ} {Y : Type κ} {first : Outcome X} {x : X} (next : X → Outcome Y)
    → first ≡ ok x
    → (first >>= next) ≡ next x
>>=-ok next e = ap (λ o. o >>= next) e

pub >>=-return {ℓ} : {X : Type ℓ} (first : Outcome X) → (first >>= λ x. ok x) ≡ first
>>=-return (crash fault) = refl
>>=-return (ok x) = refl

pub >>=-crash {ℓ κ} :
    {X : Type ℓ} {Y : Type κ} {first : Outcome X} {fault : Fault} (next : X → Outcome Y)
    → first ≡ crash fault
    → (first >>= next) ≡ crash fault
>>=-crash next e = ap (λ o. o >>= next) e

pub Ends-map {ℓ κ ι} :
    {A : Type ℓ} {P : A → Type κ} {Q : A → Type ι} {o : Outcome A}
    → ((a : A) → P a → Q a)
    → Ends P o
    → Ends Q o
Ends-map weaker (ends_ok p) = ends_ok (weaker _ p)
Ends-map weaker ends_null = ends_null
Ends-map weaker ends_out = ends_out

pub Ends-Bool {ℓ κ} :
    {A : Type ℓ} {P : A → Type κ} {x y : Outcome A} (b : Bool)
    → Ends P x
    → Ends P y
    → Ends P (elim b [ false ↦ x | true ↦ y ])
Ends-Bool true left right = right
Ends-Bool false left right = left

-- With the equation for the result.
pub Ends-eq {ℓ κ} :
    {A : Type ℓ} {P : A → Type κ} {o : Outcome A} → Ends P o → Ends (λ a. P a × (o ≡ ok a)) o
Ends-eq (ends_ok p) = ends_ok (p, refl)
Ends-eq ends_null = ends_null
Ends-eq ends_out = ends_out

-- By cases on a Boolean that is known in each.
pub Ends-cases {ℓ κ} :
    {A : Type ℓ} {P : A → Type κ} {x y : Outcome A} (b : Bool)
    → (b ≡ false → Ends P x)
    → (b ≡ true → Ends P y)
    → Ends P (elim b [ false ↦ x | true ↦ y ])
Ends-cases true left right = right refl
Ends-cases false left right = left refl
