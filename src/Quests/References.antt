-- ===== src/Quests/References.antt =====
-- What `validateQuest` of apps/server/internal/service/content.go says of a reference to a mod, by the
-- rows of all packs.
use m_pack_station.Base.{
  String, Bool, true, false, not, List, [], ◌∷◌, filter, str_eq, holds_text, ◌≡◌, ◌⊎◌, ◌&&◌, refl,
  any, arith, Bool-cases, inl, inr, if◌then◌else◌,
}
use m_pack_station.Quests.Model.{PackMod, cross_pack_reference, missing_mod_reference, QuestIssue}
use m_pack_station.Quests.Checks.{
  is_present, pack_id_for_mod_reference, reference_issue, quest_error, issue_when,
}

abbrev has_id : String → PackMod → Bool
has_id ref = is_present (λ (m : PackMod). str_eq m.id ref)

abbrev has_project : String → PackMod → Bool
has_project ref = is_present (λ (m : PackMod). holds_text m.project_id ref)

-- The row is one that decides on the reference: it was not removed, and the reference is its id, or
-- its project where no row has the reference as its id.
abbrev pub decides : String → List PackMod → PackMod → Bool
decides ref mods m =
    if any (λ (x : PackMod). not x.removed && str_eq x.id ref) mods
    then not m.removed && str_eq m.id ref
    else not m.removed && holds_text m.project_id ref

-- What a reference is told, and why.
abbrev pub Judges : List PackMod → String → String → String → List QuestIssue → Type 0
Judges mods pack path ref issues =
    ((issues ≡ (quest_error missing_mod_reference path ∷ []))
      × (any (λ (m : PackMod). decides ref mods m) mods ≡ false))
    ⊎ (((issues ≡ (quest_error cross_pack_reference path ∷ []))
          × (any (λ (m : PackMod). decides ref mods m && not (str_eq m.pack_id pack)) mods ≡ true))
        ⊎ ((issues ≡ [])
            × (any (λ (m : PackMod). decides ref mods m && str_eq m.pack_id pack) mods ≡ true)))

module _ (p : PackMod → Bool) where
  filter-nothing : (ms : List PackMod) → filter p ms ≡ [] → any p ms ≡ false
  filter-nothing [] h = refl
  filter-nothing (m ∷ ms) h = elim (Bool-cases (p m)) [
    | inl e ↦ absurd (cc (rw e at h))
    | inr e ↦ rw e (filter-nothing ms (rw e at h))
  ]

  filter-first :
      (q : PackMod → Bool) (ms : List PackMod) {m : PackMod} {rest : List PackMod}
      → filter p ms ≡ (m ∷ rest)
      → q m ≡ true
      → any (λ x. p x && q x) ms ≡ true
  filter-first q [] h k = absurd (cc)
  filter-first q (x ∷ ms) {m = m} {rest = rest} h k = elim (Bool-cases (p x)) [
    | inl e ↦
        let g : (x ∷ filter p ms) ≡ (m ∷ rest) = (rw e at h) in
        let same : x ≡ m = cc in rw (e, same, k) refl
    | inr e ↦ let ih = filter-first q ms (rw e at h) k in ground arith
  ]

any-first :
    (p : PackMod → Bool) (ms : List PackMod) {m : PackMod} {rest : List PackMod}
    → filter p ms ≡ (m ∷ rest)
    → any p ms ≡ true
any-first p [] h = absurd (cc)
any-first p (x ∷ ms) h = elim (Bool-cases (p x)) [
  | inl e ↦ rw e refl
  | inr e ↦ let ih = any-first p ms (rw e at h) in ground arith
]

-- The pack of the first row decides.
judged :
    (p : PackMod → Bool) (mods : List PackMod) (pack path : String) {m : PackMod}
    {rest : List PackMod}
    → filter p mods ≡ (m ∷ rest)
    → let issues =
        issue_when (not (str_eq m.pack_id pack)) (quest_error cross_pack_reference path) in
      ((issues ≡ (quest_error cross_pack_reference path ∷ []))
        × (any (λ (x : PackMod). p x && not (str_eq x.pack_id pack)) mods ≡ true))
      ⊎ ((issues ≡ []) × (any (λ (x : PackMod). p x && str_eq x.pack_id pack) mods ≡ true))
judged p mods pack path {m = m} h = elim (Bool-cases (str_eq m.pack_id pack)) [
  | inl e ↦ inr (rw e refl, filter-first p (λ x. str_eq x.pack_id pack) mods h e)
  | inr e ↦ inl (rw e refl, filter-first p (λ x. not (str_eq x.pack_id pack)) mods h (rw e refl))
]

List-cases :
    {A : Type 0} (xs : List A) → (xs ≡ []) ⊎ ((x : A) × (rest : List A) × (xs ≡ (x ∷ rest)))
List-cases [] = inl refl
List-cases (x ∷ xs) = inr (x, xs, refl)

-- A reference that is not empty is reported as missing just if no row decides on it, whatever its
-- pack. Otherwise a row that decides on it belongs to another pack, and the reference is reported as
-- one to another pack, or a row that decides on it belongs to the quest's own pack, and nothing is
-- reported.
pub reference_issue-Judges :
    (mods : List PackMod) (pack path ref : String)
    → str_eq ref "" ≡ false
    → Judges mods pack path ref (reference_issue mods pack path ref)
unfolding reference_issue pack_id_for_mod_reference
reference_issue-Judges mods pack path ref e = elim (List-cases (filter (has_id ref) mods)) [
  | inr (m, rest, h) ↦
      let named : any (has_id ref) mods ≡ true = any-first (has_id ref) mods h in
      rw (e, h, named) (inr (judged (has_id ref) mods pack path h))
  | inl h ↦
      let unnamed : any (has_id ref) mods ≡ false = filter-nothing (has_id ref) mods h in
      elim (List-cases (filter (has_project ref) mods)) [
        | inr (m, rest, k) ↦ rw (e, h, k, unnamed) (inr (judged (has_project ref) mods pack path k))
        | inl k ↦ rw (e, h, k, unnamed) (inl (refl, filter-nothing (has_project ref) mods k))
      ]
]
