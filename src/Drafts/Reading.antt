-- ===== src/Drafts/Reading.antt =====
-- What GetContent of apps/server/internal/service/content.go reads after a draft was saved or a
-- rollback made.
use m_pack_station.Base.{
  ℕ, String, List, some, ◌∷◌, [], ◌≡◌, refl, true, arith, Bool-cases, inl, inr, ap, suc, eq_refl,
  Bool, length, subst₂,
}
use m_pack_station.Drafts.Json.{
  Json, json_eq, items_eq, members_eq, null, boolean, number, string, array, object, Items,
  no_items, item, Members, no_members, member, bool_eq,
}
use m_pack_station.Drafts.Model.{Revision, Document, ContentStore, Reply, gives, refuses}
use m_pack_station.Drafts.Store.{find_document, change_document, is_document}
use m_pack_station.Drafts.Service.{get_content_document}
use m_pack_station.Drafts.Rows.{latest_revision-Numbered}
use m_pack_station.Drafts.Invariant.{DocumentInv}
use m_pack_station.Drafts.Moves.{appended}

bool_eq_refl : (b : Bool) → bool_eq b b ≡ true
bool_eq_refl b = ground arith

mutual
  unfolding json_eq

  pub json_eq_refl : (j : Json) → json_eq j j ≡ true
  json_eq_refl null = refl
  json_eq_refl (boolean b) = bool_eq_refl b
  json_eq_refl (number n) = ground (arith, bool_eq_refl n.negative)
  json_eq_refl (string s) = eq_refl s
  json_eq_refl (array xs) = items_eq_refl xs
  json_eq_refl (object ms) = members_eq_refl ms

  items_eq_refl : (xs : Items) → items_eq xs xs ≡ true
  items_eq_refl no_items = refl
  items_eq_refl (item x xs) = rw (json_eq_refl x, items_eq_refl xs) refl

  members_eq_refl : (ms : Members) → members_eq ms ms ≡ true
  members_eq_refl no_members = refl
  members_eq_refl (member k x ms) = rw (eq_refl k, json_eq_refl x, members_eq_refl ms) refl

find_document-changed :
    (pack id : String) (r : Revision) (stamp : ℕ → ℕ) (ds : List Document) {d : Document}
    → find_document pack id ds ≡ some d
    → find_document pack id (change_document pack id (appended r stamp) ds)
      ≡ some (appended r stamp d)
unfolding find_document change_document
find_document-changed pack id r stamp [] e = absurd (cc)
find_document-changed pack id r stamp (x ∷ xs) e = elim (Bool-cases (is_document pack id x)) [
  | inl b ↦
      let same : some x ≡ some _ = rw b at e in
      rw (b, change_document, find_document, b) (ap (λ y. some (appended r stamp y)) (cc))
  | inr b ↦
      rw (b, change_document, find_document, b)
        (find_document-changed pack id r stamp xs (rw b at e))
]

-- A revision in front, numbered next, is the one that is read.
pub get-appended :
    (pack id : String) (r : Revision) (stamp : ℕ → ℕ) (s s' : ContentStore) {d : Document}
    → find_document pack id s.documents ≡ some d
    → DocumentInv d
    → r.number ≡ suc (length d.revisions)
    → s'.documents ≡ change_document pack id (appended r stamp) s.documents
    → get_content_document pack id s' ≡ some (appended r stamp d, r)
unfolding get_content_document
get-appended pack id r stamp s s' {d = d} found v n e =
    rw
      (
        e,
        find_document-changed pack id r stamp s.documents found,
        get_content_document,
        latest_revision-Numbered (r ∷ d.revisions) (n, v.numbered),
      )
      refl

gives_injective : {A : Type 0} (r : A) {r' : A} → gives r ≡ gives r' → r ≡ r'
gives_injective {A = A} r h = ap given h
  where
    given : Reply A → A
    given (gives x) = x
    given (refuses e) = r

-- What holds of an answer's parts holds of an answer that equals it.
pub answer_subst :
    {S A : Type 0} (P : S → A → Type 0) (s : S) (r : A) {s' : S} {r' : A}
    → ◌≡◌ {A = S × Reply A} (s, gives r) (s', gives r')
    → P s r
    → P s' r'
answer_subst {S = S} {A = A} P s r {s' = s'} {r' = r'} h p =
    let es : s ≡ s' = ap (λ (o : S × Reply A). o.0) h in
    let er : gives r ≡ gives r' = ap (λ (o : S × Reply A). o.1) h in
    let e : r ≡ r' = gives_injective r er in subst₂ P es e p
