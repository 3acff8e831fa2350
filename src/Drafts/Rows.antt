-- ===== src/Drafts/Rows.antt =====
-- What the statements of apps/server/internal/store/content_repo.go keep true of the revisions of a
-- document.
use m_pack_station.Base.{
  String, List, Option, Bool, str_eq, some, ◌∷◌, true, not, ◌&&◌, ◌||◌, false, [], suc, length, All,
  ◌≡◌, refl, sort_by, arith, holds_text, Bool-cases, inl, inr, ap, insert_by, head?, subst, All-map,
  str_eq_comm, eq_refl, if◌then◌else◌, map,
}
use m_pack_station.Drafts.Json.{Json}
use m_pack_station.Drafts.Payload.{is_payload, validate_content_semantics, is_blocking}
use m_pack_station.Drafts.Model.{Revision, applied, archived, RevisionState, draft}
use m_pack_station.Drafts.Store.{find_revision, latest_revision, max_revision, newer}
use m_pack_station.Drafts.Changes.{is_draft, is_applied, promote_draft, archive_applied}

-- The revisions count down to 1.
abbrev pub Numbered : List Revision → Type 0
Numbered [] = Unit {0}
Numbered (r ∷ rs) = (r.number ≡ suc (length rs)) × Numbered rs

-- No id occurs twice.
abbrev pub Distinct : List Revision → Type 0
Distinct [] = Unit {0}
Distinct (r ∷ rs) = All (λ (x : Revision). str_eq x.id r.id ≡ false) rs × Distinct rs

-- A payload that the semantic validation lets pass.
abbrev pub is_clear : String → Json → Bool
is_clear kind v = not (is_blocking (validate_content_semantics kind v))

-- Facts of one revision in a document of a kind and an active revision.
abbrev pub accepted : String → Revision → Bool
accepted kind r = is_payload kind r.payload

abbrev pub checked : String → Revision → Bool
checked kind r = is_draft r.state || is_clear kind r.payload

abbrev pub active_if_applied : Option String → Revision → Bool
active_if_applied active r = not (is_applied r.state) || holds_text active r.id

abbrev pub is_active_row : Option String → Revision → Bool
is_active_row active r = holds_text active r.id && is_applied r.state

-- If the revision has the id, it is clear.
abbrev pub cleared : String → String → Revision → Bool
cleared id kind r = not (str_eq r.id id) || is_clear kind r.payload

abbrev pub Holds : (Revision → Bool) → List Revision → Type 0
Holds p = All (λ r. p r ≡ true)

pub find_revision-All :
    (P : Revision → Type 0) (id : String) (rs : List Revision) {r : Revision}
    → All P rs
    → find_revision id rs ≡ some r
    → P r
unfolding find_revision
find_revision-All P id [] h e = absurd (cc)
find_revision-All P id (x ∷ xs) {r = r} h e = elim (Bool-cases (str_eq x.id id)) [
  | inl b ↦ let same : x ≡ r = cc (rw b at e) in subst P same h.0
  | inr b ↦ find_revision-All P id xs h.1 (rw b at e)
]

pub find_revision-id :
    (id : String) (rs : List Revision) {r : Revision}
    → find_revision id rs ≡ some r
    → str_eq r.id id ≡ true
unfolding find_revision
find_revision-id id [] e = absurd (cc)
find_revision-id id (x ∷ xs) e = elim (Bool-cases (str_eq x.id id)) [
  | inl b ↦ let same : some x ≡ some _ = rw b at e in cc
  | inr b ↦ find_revision-id id xs (rw b at e)
]

-- The latest revision is the one inserted last.
sort_by-newer : (rs : List Revision) → Numbered rs → sort_by newer rs ≡ rs
unfolding sort_by insert_by
sort_by-newer [] h = refl
sort_by-newer (r ∷ []) h = refl
sort_by-newer (r ∷ x ∷ xs) h =
    rw (sort_by-newer (x ∷ xs) h.1) (let first = h.0 in let next = h.1.0 in ground arith)

pub latest_revision-Numbered : (rs : List Revision) → Numbered rs → latest_revision rs ≡ head? rs
unfolding latest_revision
latest_revision-Numbered rs h = ap head? (sort_by-newer rs h)

pub max_revision-Numbered : (rs : List Revision) → Numbered rs → max_revision rs ≡ length rs
unfolding max_revision
max_revision-Numbered [] h = refl
max_revision-Numbered (r ∷ rs) h = let first = h.0 in ground (arith, max_revision-Numbered rs h.1)

-- The other rows have other ids.
module _ (kind : String) where
  others_cleared :
      (id : String) (rs : List Revision)
      → All (λ (x : Revision). str_eq x.id id ≡ false) rs
      → Holds (cleared id kind) rs
  others_cleared id rs h = All-map _ _ rs (λ x k. rw k refl) h

  abbrev pub ClearedIn : List Revision → Revision → Type 0
  ClearedIn rs x = is_clear kind x.payload ≡ true → Holds (cleared x.id kind) rs

  widened :
      (x : Revision) (xs ys : List Revision)
      → All (λ (y : Revision). str_eq y.id x.id ≡ false) ys
      → All (ClearedIn xs) ys
      → All (ClearedIn (x ∷ xs)) ys
  widened x xs [] h k = tt
  widened x xs (y ∷ ys) h k =
      (λ c. (rw (str_eq_comm x.id y.id, h.0) refl, k.0 c), widened x xs ys h.1 k.1)

  -- A clear revision clears its id.
  pub Distinct-ClearedIn : (rs : List Revision) → Distinct rs → All (ClearedIn rs) rs
  Distinct-ClearedIn [] h = tt
  Distinct-ClearedIn (x ∷ xs) h = (
    λ c. (rw (eq_refl x.id, c) refl, others_cleared x.id xs h.0),
    widened x xs xs h.0 (Distinct-ClearedIn xs h.1),
  )

-- The two updates of ApplyContent, on one row.
abbrev pub after_apply : String → Revision → Revision
after_apply id r =
    if str_eq r.id id && is_draft r.state
    then record r { state = applied }
    else if is_applied r.state
    then record r { state = archived }
    else r

pub apply_rows-map :
    (id : String) (rs : List Revision)
    → promote_draft id (archive_applied rs) ≡ map (after_apply id) rs
unfolding promote_draft archive_applied
apply_rows-map id [] = refl
apply_rows-map id (r ∷ rs) =
    rw (apply_rows-map id rs) (ap (λ x. x ∷ map (after_apply id) rs) (both r.state refl))
  where
    both :
        (t : RevisionState)
        → r.state ≡ t
        → (let x = if is_applied r.state then record r { state = archived } else r in
            if str_eq x.id id && is_draft x.state then record x { state = applied } else x)
          ≡ after_apply id r
    both draft e = rw e refl
    both applied e = ground arith
    both archived e = rw e refl

-- What an update of every row keeps.
module _ (f : Revision → Revision) where
  pub All-of_map :
      (P : Revision → Type 0) (rs : List Revision) → All (λ r. P (f r)) rs → All P (map f rs)
  All-of_map P [] h = tt
  All-of_map P (r ∷ rs) h = (h.0, All-of_map P rs h.1)

  pub Holds-map :
      (p : Revision → Bool) (rs : List Revision)
      → ((r : Revision) → p (f r) ≡ p r)
      → Holds p rs
      → Holds p (map f rs)
  Holds-map p rs same h = All-of_map (λ r. p r ≡ true) rs (All-map _ _ rs (λ r k. rw same k) h)

length-map : (f : Revision → Revision) (rs : List Revision) → length (map f rs) ≡ length rs
length-map f [] = refl
length-map f (r ∷ rs) = ap suc (length-map f rs)

after_apply-number : (id : String) (r : Revision) → (after_apply id r).number ≡ r.number
after_apply-number id r = ground arith

pub after_apply-id : (id : String) (r : Revision) → (after_apply id r).id ≡ r.id
after_apply-id id r = ground arith

pub after_apply-payload : (id : String) (r : Revision) → (after_apply id r).payload ≡ r.payload
after_apply-payload id r = ground arith

pub Numbered-map :
    (id : String) (rs : List Revision) → Numbered rs → Numbered (map (after_apply id) rs)
Numbered-map id [] h = tt
Numbered-map id (r ∷ rs) h =
    (rw (after_apply-number id r, length-map (after_apply id) rs) h.0, Numbered-map id rs h.1)

pub Distinct-map :
    (id : String) (rs : List Revision) → Distinct rs → Distinct (map (after_apply id) rs)
Distinct-map id [] h = tt
Distinct-map id (r ∷ rs) h = (
  All-of_map (after_apply id) _ rs
      (All-map _ _ rs (λ x k. rw (after_apply-id id x, after_apply-id id r) k) h.0),
  Distinct-map id rs h.1,
)
