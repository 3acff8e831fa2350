-- ===== src/Quests/Ids.antt =====
-- The physical and the logical ids of apps/server/internal/store/content_repo.go and
-- apps/server/internal/service/content.go, and the order in which parts are read.
use Prim.Native.String as Text
use Prim.Native.String.{◌++◌ as text_append}
use Prim.Native.String.append
use Prim.Native.Char.{code}
use mathlib.Core.List.{Perm}
use mathlib.Core.List.Perm
use m_pack_station.Base.{
  ℕ, String, Bool, true, false, str_eq, ◌==◌, List, [], ◌∷◌, some, map, sort_by, insert_by, ◌≡◌,
  refl, arith, Bool-cases, inl, inr, ap, ◌∙◌, All, subst, str_eq-of_ne,
}
use m_pack_station.Quests.Pigeons.{mem}
use m_pack_station.Quests.Rows.{
  quest_prefix, physical, strip_prefix, or_itself, logical_quest_id, mapped_id,
}

number_self : (n : ℕ) → (n == n) ≡ true
number_self n = ground arith

strip_prefix-append : (p t : String) → strip_prefix p (text_append p t) ≡ some t
unfolding strip_prefix
strip_prefix-append Text.[] t = ap some (append.nil t)
strip_prefix-append (Text.◌∷◌ c p) t =
    rw (append.cons c p t, number_self (code c)) (strip_prefix-append p t)

pub logical-physical :
    (rev kind id : String) → logical_quest_id (physical rev kind id) rev kind ≡ id
unfolding logical_quest_id
logical-physical rev kind id =
    ap (or_itself (physical rev kind id)) (strip_prefix-append (quest_prefix rev kind) id)

abbrev has_text : String → Bool
has_text Text.[] = false
has_text (Text.◌∷◌ c t) = true

has_text-append : (p t : String) → has_text p ≡ true → has_text (text_append p t) ≡ true
has_text-append Text.[] t h = absurd (cc)
has_text-append (Text.◌∷◌ c p) t h = ap has_text (append.cons c p t)

has_text-behind : (p t : String) → has_text t ≡ true → has_text (text_append p t) ≡ true
has_text-behind Text.[] t h = ap has_text (append.nil t) ∙ h
has_text-behind (Text.◌∷◌ c p) t h = ap has_text (append.cons c p t)

not_empty : (t : String) → has_text t ≡ true → str_eq t "" ≡ false
not_empty t h = str_eq-of_ne t "" (λ e. let bad : has_text t ≡ false = ap has_text e in absurd (cc))

-- A physical id is not the empty text.
physical_not_empty : (rev kind id : String) → str_eq (physical rev kind id) "" ≡ false
physical_not_empty rev kind id = not_empty (physical rev kind id) (
    has_text-append (quest_prefix rev kind) id (
      has_text-behind rev (text_append "::" (text_append kind "::"))
        (has_text-append "::" (text_append kind "::") refl)))

-- The ids of a list of parts, none of which is the empty text.
no_empty : (rev kind : String) (ids : List String) → mem "" (map (physical rev kind) ids) ≡ false
no_empty rev kind [] = refl
no_empty rev kind (x ∷ xs) = rw (physical_not_empty rev kind x, no_empty rev kind xs) refl

-- A reference that the constraints accept is one to a part of the draft.
pub mapped_id-known :
    (rev kind id : String) (ids : List String)
    → mem (mapped_id rev kind ids id) (map (physical rev kind) ids) ≡ true
    → logical_quest_id (mapped_id rev kind ids id) rev kind ≡ id
mapped_id-known rev kind id ids h = elim (Bool-cases (mem id ids)) [
  | inl e ↦ rw e (logical-physical rev kind id)
  | inr e ↦
      let bad : mem "" (map (physical rev kind) ids) ≡ true = rw e at h in
      let good = no_empty rev kind ids in absurd (cc)
]

-- Sorting reorders.
module _ {A : Type 0} (before : A → A → Bool) where
  Perm-insert_by : (x : A) (ys : List A) → Perm (insert_by before x ys) (x ∷ ys)
  unfolding insert_by
  Perm-insert_by x [] = Perm.refl (x ∷ [])
  Perm-insert_by x (y ∷ ys) = elim (Bool-cases (before y x)) [
    | inl e ↦ rw e (Perm.trans (Perm.cons y (Perm-insert_by x ys)) (Perm.swap x y ys))
    | inr e ↦ rw e (Perm.refl (x ∷ y ∷ ys))
  ]

  pub Perm-sort_by : (xs : List A) → Perm (sort_by before xs) xs
  unfolding sort_by
  Perm-sort_by [] = Perm.refl []
  Perm-sort_by (x ∷ xs) =
      Perm.trans (Perm-insert_by x (sort_by before xs)) (Perm.cons x (Perm-sort_by xs))

-- Parts that are kept under other names, sorted, and read under their own names.
module _ {A : Type 0} (before : A → A → Bool) (keep show : A → A) where
  pub Perm-shown :
      (xs : List A)
      → All (λ x. show (keep x) ≡ x) xs
      → Perm (map show (sort_by before (map keep xs))) xs
  Perm-shown xs h =
      subst (λ ys. Perm (map show (sort_by before (map keep xs))) ys) (shown_kept xs h)
        (Perm.map show (Perm-sort_by before (map keep xs)))
    where
      shown_kept : (ys : List A) → All (λ x. show (keep x) ≡ x) ys → map show (map keep ys) ≡ ys
      shown_kept [] k = refl
      shown_kept (y ∷ ys) k = rw (k.0, shown_kept ys k.1) refl
