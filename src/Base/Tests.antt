-- ===== src/Base/Tests.antt =====
-- Boolean tests on the native numbers, the conditional, and case splits that keep an equation.
use Prim.Native.Nat.{ℕ, ◌≤◌, ◌<◌, compare, Ordering}
use mathlib.Core.Path.{◌≡◌, refl, ap, sym, subst}
use mathlib.Core.Logic.{◌≢◌, ◌⊎◌, inl, inr}
use mathlib.Core.Bool.{Bool, true, false}
use mathlib.Core.Option.{Option, none, some}
use native.Mathlib.Omega.{arith}

abbrev pub ltb : ℕ → ℕ → Bool
ltb a b = elim (compare a b) [ Ordering.lt ↦ true | _ ↦ false ]

abbrev pub leb : ℕ → ℕ → Bool
leb a b = elim (compare a b) [ Ordering.gt ↦ false | _ ↦ true ]

infix 50 ◌==◌
abbrev pub ◌==◌ : ℕ → ℕ → Bool
a == b = elim (compare a b) [ Ordering.eq ↦ true | _ ↦ false ]

infix 1 if◌then◌else◌
abbrev pub if◌then◌else◌ {ℓ} : {A : Type ℓ} → Bool → A → A → A
if true then x else y = x
if false then x else y = y

pub ltb→lt : (a b : ℕ) → ltb a b ≡ true → a < b
ltb→lt a b h = ground arith

pub lt→ltb : (a b : ℕ) → a < b → ltb a b ≡ true
lt→ltb a b h = ground arith

pub le→not-lt : (a b : ℕ) → a ≤ b → ltb b a ≡ false
le→not-lt a b h = ground arith

pub leb→le : (a b : ℕ) → leb a b ≡ true → a ≤ b
leb→le a b h = ground arith

pub le→leb : (a b : ℕ) → a ≤ b → leb a b ≡ true
le→leb a b h = ground arith

pub lt→not-leb : (a b : ℕ) → b < a → leb a b ≡ false
lt→not-leb a b h = ground arith

pub not-ltb→le : (a b : ℕ) → ltb a b ≡ false → b ≤ a
not-ltb→le a b h = ground arith

pub not-leb→lt : (a b : ℕ) → leb a b ≡ false → b < a
not-leb→lt a b h = ground arith

pub eq→== : (a b : ℕ) → a ≡ b → (a == b) ≡ true
eq→== a b h = ground arith

pub ne→== : (a b : ℕ) → a ≢ b → (a == b) ≡ false
ne→== a b h = ground arith

pub ==→eq : (a b : ℕ) → (a == b) ≡ true → a ≡ b
==→eq a b h = ground arith

pub Bool-cases : (b : Bool) → (b ≡ true) ⊎ (b ≡ false)
Bool-cases true = inl refl
Bool-cases false = inr refl

pub ==→ne : (a b : ℕ) → (a == b) ≡ false → a ≢ b
==→ne a b h = ground arith

pub eq_or_ne : (a b : ℕ) → (a ≡ b) ⊎ (a ≢ b)
eq_or_ne a b = elim (Bool-cases (a == b)) [
  | inl same ↦ inl (==→eq a b same)
  | inr apart ↦ inr (==→ne a b apart)
]

pub Option-cases {ℓ} : {A : Type ℓ} (o : Option A) → (o ≡ none) ⊎ ((a : A) × (o ≡ some a))
Option-cases none = inl refl
Option-cases (some a) = inr (a, refl)

-- An `elim` on an option that is known.
pub elim_some {ℓ κ} :
    {A : Type ℓ} {B : Type κ} (x : B) (f : A → B) {o : Option A} {a : A}
    → o ≡ some a
    → elim o [ none ↦ x | some v ↦ f v ] ≡ f a
elim_some x f e = ap (λ o. elim o [ none ↦ x | some v ↦ f v ]) e

pub elim_none {ℓ κ} :
    {A : Type ℓ} {B : Type κ} (x : B) (f : A → B) {o : Option A}
    → o ≡ none
    → elim o [ none ↦ x | some v ↦ f v ] ≡ x
elim_none x f e = ap (λ o. elim o [ none ↦ x | some v ↦ f v ]) e

pub elim_true {ℓ} :
    {B : Type ℓ} (x y : B) {b : Bool} → b ≡ true → elim b [ false ↦ x | true ↦ y ] ≡ y
elim_true x y e = ap (λ b. elim b [ false ↦ x | true ↦ y ]) e

pub elim_false {ℓ} :
    {B : Type ℓ} (x y : B) {b : Bool} → b ≡ false → elim b [ false ↦ x | true ↦ y ] ≡ x
elim_false x y e = ap (λ b. elim b [ false ↦ x | true ↦ y ]) e

pub some-injective {ℓ} : {A : Type ℓ} {a b : A} → some a ≡ some b → a ≡ b
some-injective e = cc

pub some≢none {ℓ} : {A : Type ℓ} {a : A} → some a ≢ none
some≢none e = cc

-- A result, if there is one, has a property.
pub data OnSome {ℓ κ} {A : Type ℓ} (P : A → Type κ) : Option A → Type (ℓ ⊔ κ) where
  on_none : OnSome P none
  on_some : {a : A} → P a → OnSome P (some a)

pub OnSome-elim {ℓ κ ι} :
    {A : Type ℓ} {X : Type ι} {P : A → Type κ} (f : X → Option A) (o : Option X)
    → ((v : X) → OnSome P (f v))
    → OnSome P (elim o [ none ↦ none | some v ↦ f v ])
OnSome-elim f none each = on_none
OnSome-elim f (some v) each = each v

pub OnSome-if {ℓ κ} :
    {A : Type ℓ} {P : A → Type κ} {x y : Option A} (b : Bool)
    → OnSome P x
    → OnSome P y
    → OnSome P (if b then x else y)
OnSome-if true left right = left
OnSome-if false left right = right

pub OnSome-some {ℓ κ} :
    {A : Type ℓ} {P : A → Type κ} {o : Option A} {a : A} → OnSome P o → o ≡ some a → P a
OnSome-some {P = P} (on_some p) same = subst P (some-injective same) p
OnSome-some on_none same = absurd (some≢none (sym same))

pub OnSome-map {ℓ κ ι} :
    {A : Type ℓ} {P : A → Type κ} {Q : A → Type ι} {o : Option A}
    → ((a : A) → P a → Q a)
    → OnSome P o
    → OnSome Q o
OnSome-map weaker on_none = on_none
OnSome-map weaker (on_some p) = on_some (weaker _ p)
