-- ===== src/Base/Sort.antt =====
-- ORDER BY as a stable insertion sort, and LIMIT 1 on it.
use Prim.Native.Nat.{ℕ, ◌≤◌}
use mathlib.Core.Path.{◌≡◌, refl, subst}
use mathlib.Core.Logic.{inl, inr}
use mathlib.Core.Bool.{Bool, true, false}
use mathlib.Core.Option.{Option, none, some}
use mathlib.Core.List.{List, [], ◌∷◌}
use native.Mathlib.Omega.{arith}
use m_pack_station.Base.Tests.{if◌then◌else◌, Bool-cases}
use m_pack_station.Base.Lists.{All, All-map}

module _ {ℓ} {A : Type ℓ} (before : A → A → Bool) where
  unfoldable pub insert_by : A → List A → List A
  insert_by x [] = x ∷ []
  insert_by x (y ∷ ys) = let rest = insert_by x ys in if before y x then y ∷ rest else x ∷ y ∷ ys

  unfoldable pub sort_by : List A → List A
  sort_by [] = []
  sort_by (x ∷ xs) = insert_by x (sort_by xs)

abbrev pub head? {ℓ} : {A : Type ℓ} → List A → Option A
head? [] = none
head? (x ∷ xs) = some x

-- Sorting keeps what holds of every element.
module _ {ℓ κ} {A : Type ℓ} (P : A → Type κ) (before : A → A → Bool) where
  pub All-insert_by : (x : A) (ys : List A) → P x → All P ys → All P (insert_by before x ys)
  unfolding insert_by
  All-insert_by x [] h hs = (h, tt)
  All-insert_by x (y ∷ ys) h hs = elim (Bool-cases (before y x)) [
    | inl e ↦ rw e (hs.0, All-insert_by x ys h hs.1)
    | inr e ↦ rw e (h, hs)
  ]

  pub All-sort_by : (xs : List A) → All P xs → All P (sort_by before xs)
  unfolding sort_by
  All-sort_by [] hs = tt
  All-sort_by (x ∷ xs) hs = All-insert_by x (sort_by before xs) hs.0 (All-sort_by xs hs.1)

-- LIMIT 1 takes an element whose key is least, if the order agrees with the key.
module _ {ℓ} {A : Type ℓ} (before : A → A → Bool) (key : A → ℕ)
    (up : (a b : A) → before a b ≡ true → key a ≤ key b)
    (down : (a b : A) → before a b ≡ false → key b ≤ key a) where
  abbrev HeadLeast : List A → Type 0
  HeadLeast [] = Unit {0}
  HeadLeast (x ∷ xs) = All (λ y. key x ≤ key y) xs

  insert_by-HeadLeast : (x : A) (ys : List A) → HeadLeast ys → HeadLeast (insert_by before x ys)
  unfolding insert_by
  insert_by-HeadLeast x [] h = tt
  insert_by-HeadLeast x (y ∷ ys) h = elim (Bool-cases (before y x)) [
    | inl e ↦ rw e (All-insert_by (λ z. key y ≤ key z) before x ys (up y x e) h)
    | inr e ↦
        let le : key x ≤ key y = down y x e in
        rw e (le, All-map (λ z. key y ≤ key z) (λ z. key x ≤ key z) ys (λ z k. omega arith) h)
  ]

  sort_by-HeadLeast : (xs : List A) → HeadLeast (sort_by before xs)
  unfolding sort_by
  sort_by-HeadLeast [] = tt
  sort_by-HeadLeast (x ∷ xs) = insert_by-HeadLeast x (sort_by before xs) (sort_by-HeadLeast xs)

  All-of_insert_by :
      (P : A → Type 0) (x : A) (ys : List A) → All P (insert_by before x ys) → P x × All P ys
  unfolding insert_by
  All-of_insert_by P x [] h = h
  All-of_insert_by P x (y ∷ ys) h = elim (Bool-cases (before y x)) [
    | inl e ↦
        let k : All P (y ∷ insert_by before x ys) = rw e at h in
        let (px, rest) = All-of_insert_by P x ys k.1 in (px, (k.0, rest))
    | inr e ↦ let k : All P (x ∷ y ∷ ys) = rw e at h in k
  ]

  All-of_sort_by : (P : A → Type 0) (xs : List A) → All P (sort_by before xs) → All P xs
  unfolding sort_by
  All-of_sort_by P [] h = tt
  All-of_sort_by P (x ∷ xs) h =
      let (px, rest) = All-of_insert_by P x (sort_by before xs) h in (px, All-of_sort_by P xs rest)

  pub head?-sort_by-least :
      (xs : List A) {x : A} → head? (sort_by before xs) ≡ some x → All (λ y. key x ≤ key y) xs
  head?-sort_by-least xs {x = x} h =
      All-of_sort_by (λ y. key x ≤ key y) xs (go (sort_by before xs) (sort_by-HeadLeast xs) h)
    where
      go : (ys : List A) → HeadLeast ys → head? ys ≡ some x → All (λ y. key x ≤ key y) ys
      go [] least e = absurd (cc)
      go (y ∷ ys) least e =
          let same : y ≡ x = cc in
          subst (λ z. All (λ w. key z ≤ key w) (y ∷ ys)) same ((omega arith), least)

-- Nothing is taken only where nothing is there.
module _ {ℓ} {A : Type ℓ} (before : A → A → Bool) where
  insert_by-ne-nil : (x : A) (ys : List A) → head? (insert_by before x ys) ≡ none → ⊥
  unfolding insert_by
  insert_by-ne-nil x [] h = cc
  insert_by-ne-nil x (y ∷ ys) h = elim (Bool-cases (before y x)) [
    | inl e ↦ cc (rw e at h)
    | inr e ↦ cc (rw e at h)
  ]

  pub head?-sort_by-none : (xs : List A) → head? (sort_by before xs) ≡ none → xs ≡ []
  unfolding sort_by
  head?-sort_by-none [] h = refl
  head?-sort_by-none (x ∷ xs) h = absurd (insert_by-ne-nil x (sort_by before xs) h)

pub All-head? {ℓ κ} :
    {A : Type ℓ} (P : A → Type κ) (xs : List A) {x : A} → All P xs → head? xs ≡ some x → P x
All-head? P [] h e = absurd (cc)
All-head? P (y ∷ ys) {x = x} h e = let same : y ≡ x = cc in subst P same h.0
