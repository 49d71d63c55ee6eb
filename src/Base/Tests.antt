-- ===== src/Base/Tests.antt =====
-- Boolean tests on numbers and texts, the conditional, and case splits that keep the equation.
use Prim.Native.Nat.{ℕ, compare, Ordering}
use Prim.Native.String.{String}
use mathlib.Core.Path.{◌≡◌, refl}
use mathlib.Core.Logic.{◌⊎◌, inl, inr, ite}
use mathlib.Core.Bool.{Bool, true, false}
use mathlib.Core.Option.{Option, none, some}
use native.Mathlib.Omega.{arith}
use text.Mathlib.Text.{◌==◌ as str_eq}
use text.Mathlib.TextEquality.{eq_iff}

abbrev pub ltb : ℕ → ℕ → Bool
ltb a b = elim (compare a b) [ Ordering.lt ↦ true | _ ↦ false ]

abbrev pub leb : ℕ → ℕ → Bool
leb a b = elim (compare a b) [ Ordering.gt ↦ false | _ ↦ true ]

infix 50 ◌==◌
abbrev pub ◌==◌ : ℕ → ℕ → Bool
a == b = elim (compare a b) [ Ordering.eq ↦ true | _ ↦ false ]

infix 1 if◌then◌else◌
abbrev pub if◌then◌else◌ {ℓ} : {A : Type ℓ} → Bool → A → A → A
if true then x else y = x
if false then x else y = y

pub Bool-cases : (b : Bool) → (b ≡ true) ⊎ (b ≡ false)
Bool-cases true = inl refl
Bool-cases false = inr refl

pub Option-cases {ℓ} : {A : Type ℓ} (o : Option A) → (o ≡ none) ⊎ ((a : A) × (o ≡ some a))
Option-cases none = inl refl
Option-cases (some a) = inr (a, refl)

decide_str : (s t : String) (b : Bool) → str_eq s t ≡ b → Dec (s ≡ t)
decide_str s t true e = yes ((eq_iff s t).0 e)
decide_str s t false e = no (λ p. ground (arith, (eq_iff s t).1 p))

-- The equality test of Go strings.
unfoldable pub String_discrete : Discrete String
unfolding decide_str
String_discrete s t = decide_str s t (str_eq s t) refl

-- `len(s) == 0`
abbrev pub is_empty_str : String → Bool
is_empty_str s = ite (String_discrete s "") true false

-- Two texts that the equality test tells apart.
pub differ : (s t : String) → str_eq s t ≡ false → ¬ (s ≡ t)
differ s t h p = ground (arith, (eq_iff s t).1 p)

-- A property of both branches is one of the test.
pub ite_rule {ℓ κ ρ} :
    {P : Type ℓ} {C : Type κ} (Q : C → Type ρ) (d : Dec P) {x y : C}
    → (P → Q x)
    → (¬ P → Q y)
    → Q (ite d x y)
ite_rule Q (yes p) f g = f p
ite_rule Q (no p) f g = g p

pub if_rule {κ ρ} :
    {C : Type κ} (Q : C → Type ρ) (b : Bool) {x y : C}
    → (b ≡ true → Q x)
    → (b ≡ false → Q y)
    → Q (if b then x else y)
if_rule Q true f g = f refl
if_rule Q false f g = g refl
