-- ===== src/Drafts/Growth.antt =====
-- What becomes of one document under the transactions of
-- apps/server/internal/store/content_repo.go.
use m_pack_station.Base.{
  ℕ, String, List, Bool, str_eq, some, ◌∷◌, true, if◌then◌else◌, ◌&&◌, ◌||◌, false, [], ◌≡◌, refl,
  arith, str_eq→eq, Bool-cases, inl, inr, str_eq_comm, ap, ◌∙◌, ◌⊎◌,
}
use m_pack_station.Drafts.Model.{Revision, Document}
use m_pack_station.Drafts.Store.{
  has_revision, change_document, find_document, is_document, document_taken,
}
use m_pack_station.Drafts.Changes.{activated}
use m_pack_station.Drafts.Moves.{
  Moves, stays, creates, appends, activates, appended, find_document-not_taken,
}

-- How one move changes a document: not at all, by a revision in front, or by an application.
pub data Grows (d : Document) : Document → Type 0 where
  same : Grows d d
  grew :
      (r : Revision) (stamp : ℕ → ℕ)
      → has_revision r.id d.revisions ≡ false
      → Grows d (appended r stamp d)
  flipped : (rev : String) (at : ℕ) → Grows d (activated rev at d)

-- Where a document is found after a move, and how it grew.
pub record Found (pack id : String) (d : Document) (ds : List Document) : Type 0 where
  pub document : Document
  pub found : find_document pack id ds ≡ some document
  pub grows : Grows d document

module _ (pack id p i : String) (f : Document → Document)
    (keeps_id : (x : Document) → (f x).id ≡ x.id)
    (keeps_pack : (x : Document) → (f x).pack_id ≡ x.pack_id) where
  is_document-changed : (x : Document) → is_document pack id (f x) ≡ is_document pack id x
  is_document-changed x = rw (keeps_id x, keeps_pack x) refl

  find_document-change :
      (ds : List Document) {d : Document}
      → find_document pack id ds ≡ some d
      → (find_document pack id (change_document p i f ds) ≡ some d)
        ⊎ (find_document pack id (change_document p i f ds) ≡ some (f d))
  unfolding find_document change_document
  find_document-change [] e = absurd (cc)
  find_document-change (x ∷ xs) {d = d} e = elim (Bool-cases (is_document pack id x)) [
    | inl b ↦
        let here : x ≡ d = cc (rw b at e) in
        elim (Bool-cases (is_document p i x)) [
          | inl c ↦ inr (rw (c, is_document-changed x, b) (ap (λ y. some (f y)) here))
          | inr c ↦ inl (rw (c, b) (ap some here))
        ]
    | inr b ↦
        let rest : find_document pack id xs ≡ some d = rw b at e in
        elim (Bool-cases (is_document p i x)) [
          | inl c ↦ inl (rw (c, is_document-changed x, b) rest)
          | inr c ↦ rw (c, b) (find_document-change xs rest)
        ]
  ]

activated-id : (rev : String) (at : ℕ) (x : Document) → (activated rev at x).id ≡ x.id
unfolding activated
activated-id rev at x = refl

activated-pack : (rev : String) (at : ℕ) (x : Document) → (activated rev at x).pack_id ≡ x.pack_id
unfolding activated
activated-pack rev at x = refl

first_false : (a b rest : Bool) → (if a || b then true else rest) ≡ false → a ≡ false
first_false a b rest h = ground arith

rest_false : (a rest : Bool) → (if a then true else rest) ≡ false → rest ≡ false
rest_false a rest h = ground arith

pub right_true : (a b : Bool) → (a && b) ≡ true → b ≡ true
right_true a b h = ground arith

right_false : (a b : Bool) → b ≡ false → (a && b) ≡ false
right_false a b h = ground arith

-- A document that is not there has not the id and the pack of one that is.
find_document-not_new :
    (pack id : String) (x : Document) (ds : List Document) {d : Document}
    → find_document pack id ds ≡ some d
    → document_taken x ds ≡ false
    → is_document pack id x ≡ false
unfolding find_document document_taken
find_document-not_new pack id x [] e h = absurd (cc)
find_document-not_new pack id x (y ∷ ys) e h = elim (Bool-cases (is_document pack id y)) [
  | inl b ↦
      let there : y.id ≡ id = str_eq→eq y.id id (right_true _ _ b) in
      let apart : str_eq y.id x.id ≡ false = first_false _ _ _ h in
      right_false _ _ (str_eq_comm x.id id ∙ rw there at apart)
  | inr b ↦ find_document-not_new pack id x ys (rw b at e) (rest_false _ _ h)
]

find_document-behind :
    (pack id : String) (y : Document) (ys : List Document) {z : Document}
    → is_document pack id y ≡ false
    → find_document pack id ys ≡ some z
    → find_document pack id (y ∷ ys) ≡ some z
unfolding find_document
find_document-behind pack id y ys b f = rw b f

pub find_document-Moves :
    (pack id : String) {ds ds' : List Document} {d : Document}
    → Moves ds ds'
    → find_document pack id ds ≡ some d
    → Found pack id d ds'
find_document-Moves pack id {d = d} stays e = record { document = d; found = e; grows = same }
find_document-Moves pack id {ds = ds} {d = d} (creates x r free fresh a n h k) e = record {
  document = d;
  found =
      find_document-behind pack id (record x { revisions = r ∷ [] }) ds
        (find_document-not_new pack id x ds e free) e;
  grows = same;
}
find_document-Moves pack id {ds = ds} {d = d} (appends p i x r stamp found fresh n h k) e =
    elim (find_document-change pack id p i (appended r stamp) (λ y. refl) (λ y. refl) ds e) [
      | inl k ↦ record { document = d; found = k; grows = same }
      | inr k ↦ record {
        document = appended r stamp d;
        found = k;
        grows = grew r stamp (find_document-not_taken pack id r.id ds e fresh);
      }
    ]
find_document-Moves pack id {ds = ds} {d = d} (activates p i rev at x r found f h c) e =
    elim (find_document-change pack id p i (activated rev at) (activated-id rev at)
      (activated-pack rev at) ds e) [
        | inl k ↦ record { document = d; found = k; grows = same }
        | inr k ↦ record { document = activated rev at d; found = k; grows = flipped rev at }
      ]
