-- ===== src/Drafts/Histories.antt =====
-- Histories of the calls of apps/server/internal/service/content.go, where other calls may come
-- between the checks of an application and its transaction.
use m_pack_station.Base.{
  ℕ, String, List, Option, none, some, ◌∷◌, [], All, All-map, ◌≡◌, refl, zero, suc, Option-cases,
  inl, inr, subst, ◌⊎◌,
}
use m_pack_station.Base.Int.{ℤ}
use m_pack_station.Drafts.Payload.{Raw}
use m_pack_station.Drafts.Model.{
  Revision, Document, ContentStore, Surroundings, gives, refuses, Reply, ContentError,
}
use m_pack_station.Drafts.Service.{CreateContentInput, create_content, save_content_draft}
use m_pack_station.Drafts.Review.{validate_content, check_apply, finish_apply, rollback_content}
use m_pack_station.Drafts.Invariant.{DocumentInv}
use m_pack_station.Drafts.Moves.{Moves, stays, Moves-DocumentInv}
use m_pack_station.Drafts.Cleared.{ClearedAt, Moves-ClearedAt, check_apply-ClearedAt}
use m_pack_station.Drafts.Transactions.{create_content-Moves}
use m_pack_station.Drafts.Operations.{
  save_content_draft-Moves, validate_content-documents, finish_apply-Moves, rollback_content-Moves,
}

-- An application that passed its checks and has not committed.
pub record Waiting : Type 0 where
  pub pack : String
  pub document : String
  pub target : Revision

pub record Progress : Type 0 where
  pub store : ContentStore
  pub waiting : List Waiting

-- A call, or one of the two parts of ApplyContent; `promotes` names the waiting application by its
-- place.
pub data ContentCall : Type 0 where
  creates_content : Surroundings → ℕ → String → CreateContentInput → ContentCall
  saves_draft : Surroundings → ℕ → String → String → ℤ → Raw → ContentCall
  validates : Surroundings → ℕ → String → String → String → ContentCall
  checks : String → String → String → ContentCall
  promotes : ℕ → ℕ → ContentCall
  rolls_back : Surroundings → ℕ → String → String → String → ContentCall

abbrev pub nth_waiting : ℕ → List Waiting → Option Waiting
nth_waiting n [] = none
nth_waiting zero (x ∷ xs) = some x
nth_waiting (suc n) (x ∷ xs) = nth_waiting n xs

abbrev pub drop_nth : ℕ → List Waiting → List Waiting
drop_nth n [] = []
drop_nth zero (x ∷ xs) = xs
drop_nth (suc n) (x ∷ xs) = x ∷ drop_nth n xs

unfoldable pub content_step : ContentCall → Progress → Progress
unfolding create_content save_content_draft validate_content check_apply finish_apply
    rollback_content
content_step (creates_content w now pack x) p = record p {
  store = (create_content w now pack x p.store).0;
}
content_step (saves_draft w now pack id if_match raw) p = record p {
  store = (save_content_draft w now pack id if_match raw p.store).0;
}
content_step (validates w now pack id rev) p = record p {
  store = (validate_content w now pack id rev p.store).0;
}
content_step (checks pack id rev) p = elim (check_apply pack id rev p.store) [
  | refuses e ↦ p
  | gives target ↦ record p {
    waiting = record { pack = pack; document = id; target = target } ∷ p.waiting;
  }
]
content_step (promotes now n) p = elim (nth_waiting n p.waiting) [
  | none ↦ p
  | some x ↦ record {
    store = (finish_apply now x.pack x.document x.target p.store).0;
    waiting = drop_nth n p.waiting;
  }
]
content_step (rolls_back w now pack id target) p = record p {
  store = (rollback_content w now pack id target p.store).0;
}

unfoldable pub run_content : List ContentCall → Progress → Progress
unfolding content_step
run_content [] p = p
run_content (x ∷ xs) p = run_content xs (content_step x p)

unfoldable pub no_content : Progress
no_content = record {
  store = record { documents = []; validations = []; checks = []; evidence = []; generated = 0 };
  waiting = [];
}

abbrev pub ClearWaiting : List Document → Waiting → Type 0
ClearWaiting ds x = ClearedAt x.pack x.document x.target.id ds

pub record ProgressInv (p : Progress) : Type 0 where
  pub documents : All DocumentInv p.store.documents
  pub cleared : All (ClearWaiting p.store.documents) p.waiting

module _ (P : Waiting → Type 0) where
  All-drop_nth : (n : ℕ) (xs : List Waiting) → All P xs → All P (drop_nth n xs)
  All-drop_nth n [] h = tt
  All-drop_nth zero (x ∷ xs) h = h.1
  All-drop_nth (suc n) (x ∷ xs) h = (h.0, All-drop_nth n xs h.1)

  All-nth_waiting :
      (n : ℕ) (xs : List Waiting) {x : Waiting} → All P xs → nth_waiting n xs ≡ some x → P x
  All-nth_waiting n [] h e = absurd (cc)
  All-nth_waiting zero (y ∷ ys) {x = x} h e = let same : y ≡ x = cc in subst P same h.0
  All-nth_waiting (suc n) (y ∷ ys) h e = All-nth_waiting n ys h.1 e

Reply-cases :
    {A : Type 0} (o : Reply A) → ((e : ContentError) × (o ≡ refuses e)) ⊎ ((a : A) × (o ≡ gives a))
Reply-cases (refuses e) = inl (e, refl)
Reply-cases (gives a) = inr (a, refl)

-- Each call makes a move of the documents.
pub content_step-Moves :
    (x : ContentCall) (p : Progress)
    → ProgressInv p
    → Moves p.store.documents (content_step x p).store.documents
unfolding content_step
content_step-Moves (creates_content w now pack x) p v = create_content-Moves w now pack x p.store
content_step-Moves (saves_draft w now pack id if_match raw) p v =
    save_content_draft-Moves w now pack id if_match raw p.store v.documents
content_step-Moves (validates w now pack id rev) p v =
    rw (validate_content-documents w now pack id rev p.store) stays
content_step-Moves (checks pack id rev) p v = elim (Reply-cases (check_apply pack id rev p.store)) [
  | inl (e, h) ↦ rw (h, content_step) stays
  | inr (target, h) ↦ rw (h, content_step) stays
]
content_step-Moves (promotes now n) p v = elim (Option-cases (nth_waiting n p.waiting)) [
  | inl h ↦ rw (h, content_step) stays
  | inr (x, h) ↦
      rw (h, content_step)
        (finish_apply-Moves now x.pack x.document x.target p.store
          (All-nth_waiting (ClearWaiting p.store.documents) n p.waiting v.cleared h))
]
content_step-Moves (rolls_back w now pack id target) p v =
    rollback_content-Moves w now pack id target p.store v.documents

-- What a move keeps of the waiting applications.
kept_waiting :
    {ds ds' : List Document} (xs : List Waiting)
    → Moves ds ds'
    → All (ClearWaiting ds) xs
    → All (ClearWaiting ds') xs
kept_waiting xs m h = All-map _ _ xs (λ x. Moves-ClearedAt x.pack x.document x.target.id m) h

content_step-cleared :
    (x : ContentCall) (p : Progress)
    → ProgressInv p
    → All (ClearWaiting (content_step x p).store.documents) (content_step x p).waiting
unfolding content_step
content_step-cleared (creates_content w now pack x) p v =
    kept_waiting p.waiting (content_step-Moves (creates_content w now pack x) p v) v.cleared
content_step-cleared (saves_draft w now pack id if_match raw) p v =
    kept_waiting p.waiting (content_step-Moves (saves_draft w now pack id if_match raw) p v)
      v.cleared
content_step-cleared (validates w now pack id rev) p v =
    kept_waiting p.waiting (content_step-Moves (validates w now pack id rev) p v) v.cleared
content_step-cleared (rolls_back w now pack id target) p v =
    kept_waiting p.waiting (content_step-Moves (rolls_back w now pack id target) p v) v.cleared
content_step-cleared (checks pack id rev) p v =
    elim (Reply-cases (check_apply pack id rev p.store)) [
      | inl (e, h) ↦ rw (h, content_step) v.cleared
      | inr (target, h) ↦
          rw (h, content_step) (check_apply-ClearedAt pack id rev p.store v.documents h, v.cleared)
    ]
content_step-cleared (promotes now n) p v = elim (Option-cases (nth_waiting n p.waiting)) [
  | inl h ↦ rw (h, content_step) v.cleared
  | inr (x, h) ↦
      rw (h, content_step)
        (kept_waiting (drop_nth n p.waiting)
          (finish_apply-Moves now x.pack x.document x.target p.store
            (All-nth_waiting (ClearWaiting p.store.documents) n p.waiting v.cleared h))
          (All-drop_nth (ClearWaiting p.store.documents) n p.waiting v.cleared))
]

pub content_step-ProgressInv :
    (x : ContentCall) (p : Progress) → ProgressInv p → ProgressInv (content_step x p)
content_step-ProgressInv x p v = record {
  documents = Moves-DocumentInv (content_step-Moves x p v) v.documents;
  cleared = content_step-cleared x p v;
}

pub run_content-ProgressInv :
    (xs : List ContentCall) (p : Progress) → ProgressInv p → ProgressInv (run_content xs p)
unfolding run_content
run_content-ProgressInv [] p v = v
run_content-ProgressInv (x ∷ xs) p v =
    run_content-ProgressInv xs (content_step x p) (content_step-ProgressInv x p v)

pub no_content-ProgressInv : ProgressInv no_content
unfolding no_content
no_content-ProgressInv = record { documents = tt; cleared = tt }
