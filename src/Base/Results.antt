-- ===== src/Base/Results.antt =====
-- What holds of the result of code, where it has one.
use mathlib.Core.Path.{◌≡◌, subst}
use mathlib.Core.Bool.{Bool, true, false}
use mathlib.Core.Option.{Option, none, some}
use libevent_paxos.Base.Tests.{if◌then◌else◌}
use libevent_paxos.Base.Fallible.{Outcome, ok, crash, Fault, ◌>>=◌, ok-injective, crash≢ok}

pub data Returns {ℓ κ} {A : Type ℓ} (P : A → Type κ) : Outcome A → Type (ℓ ⊔ κ) where
  returns : {a : A} → P a → Returns P (ok a)
  stops : {fault : Fault} → Returns P (crash fault)

pub Returns-ok {ℓ κ} :
    {A : Type ℓ} {P : A → Type κ} {o : Outcome A} {a : A} → Returns P o → o ≡ ok a → P a
Returns-ok {P = P} (returns p) same = subst P (ok-injective same) p
Returns-ok stops same = absurd (crash≢ok same)

pub Returns->>= {ℓ κ ι ν} :
    {X : Type ℓ} {Y : Type κ} {P : X → Type ι} {Q : Y → Type ν} {first : Outcome X}
    (next : X → Outcome Y)
    → Returns P first
    → ((x : X) → P x → Returns Q (next x))
    → Returns Q (first >>= next)
Returns->>= next (returns p) after = after _ p
Returns->>= next stops after = stops

-- Whatever comes first.
pub Returns-after {ℓ κ ν} :
    {X : Type ℓ} {Y : Type κ} {Q : Y → Type ν} (first : Outcome X) (next : X → Outcome Y)
    → ((x : X) → Returns Q (next x))
    → Returns Q (first >>= next)
Returns-after (ok x) next after = after x
Returns-after (crash fault) next after = stops

pub Returns-map {ℓ κ ι} :
    {A : Type ℓ} {P : A → Type κ} {Q : A → Type ι} {o : Outcome A}
    → ((a : A) → P a → Q a)
    → Returns P o
    → Returns Q o
Returns-map weaker (returns p) = returns (weaker _ p)
Returns-map weaker stops = stops

pub Returns-Option {ℓ κ ι} :
    {A : Type ℓ} {X : Type ι} {P : A → Type κ} {x : Outcome A} (f : X → Outcome A)
    → (o : Option X) → Returns P x
    → ((v : X) → Returns P (f v))
    → Returns P (elim o [ none ↦ x | some v ↦ f v ])
Returns-Option f none left right = left
Returns-Option f (some v) left right = right v

pub Returns-Bool {ℓ κ} :
    {A : Type ℓ} {P : A → Type κ} {x y : Outcome A} (b : Bool)
    → Returns P x
    → Returns P y
    → Returns P (elim b [ false ↦ x | true ↦ y ])
Returns-Bool true left right = right
Returns-Bool false left right = left

pub Returns-if {ℓ κ} :
    {A : Type ℓ} {P : A → Type κ} {x y : Outcome A} (b : Bool)
    → Returns P x
    → Returns P y
    → Returns P (if b then x else y)
Returns-if true left right = left
Returns-if false left right = right
