-- ===== src/Prelude/Tests.antt =====
-- Boolean tests on the native numbers, the conditional, and case lemmas.
use Prim.Native.Nat.{ℕ, ◌≤◌, ◌<◌, compare, Ordering}
use mathlib.Core.Path.{◌≡◌, refl}
use mathlib.Core.Logic.{◌↔◌, ◌⊎◌, inl, inr}
use mathlib.Core.Bool.{Bool, true, false}
use mathlib.Core.Option.{Option, none, some}
use native.Mathlib.Omega.{arith}

abbrev pub ltb : ℕ → ℕ → Bool
ltb a b = elim (compare a b) [ Ordering.lt ↦ true | _ ↦ false ]

abbrev pub leb : ℕ → ℕ → Bool
leb a b = elim (compare a b) [ Ordering.gt ↦ false | _ ↦ true ]

abbrev pub nat_beq : ℕ → ℕ → Bool
nat_beq a b = elim (compare a b) [ Ordering.eq ↦ true | _ ↦ false ]

infix 1 if◌then◌else◌
abbrev pub if◌then◌else◌ {ℓ} : {A : Type ℓ} → Bool → A → A → A
if true then x else y = x
if false then x else y = y

pub ltb→lt : (a b : ℕ) → ltb a b ≡ true → a < b
ltb→lt a b h = ground arith

pub lt→ltb : (a b : ℕ) → a < b → ltb a b ≡ true
lt→ltb a b h = ground arith

pub leb→le : (a b : ℕ) → leb a b ≡ true → a ≤ b
leb→le a b h = ground arith

pub nat_beq_iff : (a b : ℕ) → (nat_beq a b ≡ true) ↔ (a ≡ b)
nat_beq_iff a b = ground arith

pub ruleset tests = (arith, ltb→lt, lt→ltb, leb→le)

-- To split on a computed value and keep the equation.
pub Bool-cases : (b : Bool) → (b ≡ true) ⊎ (b ≡ false)
Bool-cases true = inl refl
Bool-cases false = inr refl

pub Option-cases {ℓ} : {A : Type ℓ} (o : Option A) → (o ≡ none) ⊎ ((a : A) × (o ≡ some a))
Option-cases none = inl refl
Option-cases (some a) = inr (a, refl)

-- Inversion of a conditional result.
pub if_some_cases {ℓ} :
    {A : Type ℓ} (b : Bool) (x : A) (o : Option A) {w : A}
    → (if b then some x else o) ≡ some w
    → ((b ≡ true) × (x ≡ w)) ⊎ ((b ≡ false) × (o ≡ some w))
if_some_cases true x o h = inl (refl, cc)
if_some_cases false x o h = inr (refl, h)

pub inr_map {ℓ κ ι} : {P : Type ℓ} {A : Type κ} {B : Type ι} → (A → B) → P ⊎ A → P ⊎ B
inr_map f (inl p) = inl p
inr_map f (inr a) = inr (f a)

pub if_cases {ℓ} :
    {A : Type ℓ} (b : Bool) (x y : A) {w : A}
    → (if b then x else y) ≡ w
    → ((b ≡ true) × (x ≡ w)) ⊎ ((b ≡ false) × (y ≡ w))
if_cases true x y h = inl (refl, h)
if_cases false x y h = inr (refl, h)
