-- ===== src/Base/Tests.antt =====
-- Boolean tests on numbers and texts, the conditional, and the case lemmas that split on them.
use Prim.Native.Nat.{ℕ, compare, Ordering}
use Prim.Native.String.{String, compare as compare_text}
use mathlib.Core.Path.{◌≡◌, refl}
use mathlib.Core.Logic.{◌⊎◌, ◌≢◌, inl, inr}
use mathlib.Core.Bool.{Bool, true, false}
use mathlib.Core.Option.{Option, none, some}
use native.Mathlib.Omega.{arith}
use text.Mathlib.Text.{◌==◌ as str_eq, is_lt}
use text.Mathlib.TextEquality.{eq_iff}

abbrev pub ltb : ℕ → ℕ → Bool
ltb a b = elim (compare a b) [ Ordering.lt ↦ true | _ ↦ false ]

abbrev pub leb : ℕ → ℕ → Bool
leb a b = elim (compare a b) [ Ordering.gt ↦ false | _ ↦ true ]

infix 50 ◌==◌
abbrev pub ◌==◌ : ℕ → ℕ → Bool
a == b = elim (compare a b) [ Ordering.eq ↦ true | _ ↦ false ]

infix 1 if◌then◌else◌
abbrev pub if◌then◌else◌ {ℓ} : {A : Type ℓ} → Bool → A → A → A
if true then x else y = x
if false then x else y = y

pub Bool-cases : (b : Bool) → (b ≡ true) ⊎ (b ≡ false)
Bool-cases true = inl refl
Bool-cases false = inr refl

pub Option-cases {ℓ} : {A : Type ℓ} (o : Option A) → (o ≡ none) ⊎ ((a : A) × (o ≡ some a))
Option-cases none = inl refl
Option-cases (some a) = inr (a, refl)

abbrev pub is_some {ℓ} : {A : Type ℓ} → Option A → Bool
is_some none = false
is_some (some a) = true

pub str_eq→eq : (s t : String) → str_eq s t ≡ true → s ≡ t
str_eq→eq s t h = (eq_iff s t).0 h

pub str_eq-of_ne : (s t : String) → s ≢ t → str_eq s t ≡ false
str_eq-of_ne s t h = elim (Bool-cases (str_eq s t)) [
  | inl e ↦ absurd (h (str_eq→eq s t e))
  | inr e ↦ e
]

pub str_eq_comm : (s t : String) → str_eq s t ≡ str_eq t s
str_eq_comm s t = ground (arith, eq_iff s t, eq_iff t s)

-- A text column that may be NULL, compared with a bound argument.
abbrev pub holds_text : Option String → String → Bool
holds_text none t = false
holds_text (some s) t = str_eq s t

-- A number column that may be NULL, compared with a bound argument.
abbrev pub holds_number : Option ℕ → ℕ → Bool
holds_number none n = false
holds_number (some m) n = m == n

pub holds_text→eq : (o : Option String) (t : String) → holds_text o t ≡ true → o ≡ some t
holds_text→eq none t h = cc
holds_text→eq (some s) t h = cc (str_eq→eq s t h)

pub holds_number→eq : (o : Option ℕ) (n : ℕ) → holds_number o n ≡ true → o ≡ some n
holds_number→eq o n h = ground arith

-- SQLite's order of texts, by code points.
abbrev pub str_lt : String → String → Bool
str_lt s t = is_lt (compare_text s t)

module _ {ℓ} {A : Type ℓ} (x y : A) where
  pub if_true : {b : Bool} → b ≡ true → (if b then x else y) ≡ x
  if_true h = rw h

  pub if_false : {b : Bool} → b ≡ false → (if b then x else y) ≡ y
  if_false h = rw h

infixl 5 ◌>>=◌
-- A result of a call whose error ends the function.
abbrev pub ◌>>=◌ {ℓ κ} : {A : Type ℓ} {B : Type κ} → Option A → (A → Option B) → Option B
none >>= k = none
some a >>= k = k a
