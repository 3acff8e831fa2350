-- ===== src/Quests/Pigeons.antt =====
-- A list of distinct texts that stand in another list is no longer than it.
use m_pack_station.Base.{
  String, Bool, true, false, List, [], ◌∷◌, filter, str_eq, ◌≡◌, ◌≤◌, ◌<◌, length, All, arith,
  Bool-cases, inl, inr, not, ◌||◌, str_eq→eq, refl, str_eq_comm, subst, sym, ◌∙◌,
}

abbrev pub mem : String → List String → Bool
mem x [] = false
mem x (y ∷ ys) = str_eq y x || mem x ys

-- No text occurs twice.
abbrev pub AllDistinct : List String → Type 0
AllDistinct [] = Unit {0}
AllDistinct (x ∷ xs) = (mem x xs ≡ false) × AllDistinct xs

abbrev pub Inside : List String → List String → Type 0
Inside ys xs = All (λ x. mem x ys ≡ true) xs

without : String → List String → List String
without x ys = filter (λ y. not (str_eq y x)) ys

length-without : (x : String) (ys : List String) → length (without x ys) ≤ length ys
unfolding without
length-without x [] = omega arith
length-without x (y ∷ ys) = ground (arith, length-without x ys)

length-without_lt :
    (x : String) (ys : List String) → mem x ys ≡ true → length (without x ys) < length ys
unfolding without
length-without_lt x [] h = absurd (cc)
length-without_lt x (y ∷ ys) h = elim (Bool-cases (str_eq y x)) [
  | inl e ↦ let le = length-without x ys in rw e (omega arith)
  | inr e ↦ let lt = length-without_lt x ys (rw e at h) in rw e (omega arith)
]

mem-without :
    (x z : String) (ys : List String)
    → str_eq x z ≡ false
    → mem z ys ≡ true
    → mem z (without x ys) ≡ true
unfolding without
mem-without x z [] d h = h
mem-without x z (y ∷ ys) d h = elim (Bool-cases (str_eq y x)) [
  | inl e ↦
      let same : str_eq y z ≡ false = subst (λ t. str_eq t z ≡ false) (sym (str_eq→eq y x e)) d in
      rw e (mem-without x z ys d (rw same at h))
  | inr e ↦ elim (Bool-cases (str_eq y z)) [
    | inl k ↦ rw (e, k) refl
    | inr k ↦ rw (e, k) (mem-without x z ys d (rw k at h))
  ]
]

-- The others than `x`, in the list without it.
Inside-without :
    (x : String) (ys xs : List String) → mem x xs ≡ false → Inside ys xs → Inside (without x ys) xs
Inside-without x ys [] d h = tt
Inside-without x ys (z ∷ zs) d h = elim (Bool-cases (str_eq z x)) [
  | inl e ↦ let bad : true ≡ false = rw e at d in absurd (cc)
  | inr e ↦ (mem-without x z ys (str_eq_comm x z ∙ e) h.0, Inside-without x ys zs (rw e at d) h.1)
]

pub length-Inside : (xs ys : List String) → AllDistinct xs → Inside ys xs → length xs ≤ length ys
length-Inside [] ys d h = omega arith
length-Inside (x ∷ xs) ys d h =
    let rest = length-Inside xs (without x ys) d.1 (Inside-without x ys xs d.0 h.1) in
    let lt = length-without_lt x ys h.0 in omega arith
