-- ===== src/Drafts/Examples.antt =====
-- Concrete content of apps/server/internal/service/content.go.
use Prim.Native.String.{◌++◌ as text_append}
use m_pack_station.Base.{
  ℕ, String, List, ◌≡◌, zero, suc, some, none, true, false, ◌∷◌, [], refl, All, ◌≢◌, map, insert_by,
  arith, leb, ◌+◌, ◌&&◌,
}
use m_pack_station.Base.Int.{pos}
use m_pack_station.Drafts.Json.{
  Json, number, string, array, object, no_items, item, no_members, member, json_within_bounds,
}
use m_pack_station.Drafts.Bounds.{nesting, narrow, json_within_bounds-nesting}
use m_pack_station.Drafts.Payload.{Raw, canonical_content_payload, is_payload}
use m_pack_station.Drafts.Model.{
  Surroundings, ContentStore, Revision, Document, gives, refuses, revision_conflict, applied, draft,
  RevisionState,
}
use m_pack_station.Drafts.Service.{
  CreateContentInput, save_content_draft, get_content, taking, get_content_document,
}
use m_pack_station.Drafts.Review.{rollback_content}
use m_pack_station.Drafts.Histories.{
  ContentCall, creates_content, saves_draft, validates, checks, promotes, rolls_back, run_content,
  no_content, run_content-ProgressInv, no_content-ProgressInv,
}
use m_pack_station.Drafts.Reviewed.{
  OneActive, run_content-OneActive, reviewed, run_content-reviewed, run_content-Numbered,
}
use m_pack_station.Drafts.Lasting.{Lasts, history-Lasts}
use m_pack_station.Drafts.Rollbacks.{RollsBack, rollback_content-RollsBack}
use m_pack_station.Drafts.Resaves.{save_content_draft-again, save_content_draft-stale}
use m_pack_station.Drafts.Rows.{Numbered}
use m_pack_station.Drafts.Invariant.{DocumentInv}
use m_pack_station.Drafts.Store.{find_document}

abbrev counted : ℕ → String
counted zero = "i"
counted (suc n) = text_append "i" (counted n)

abbrev around : Surroundings
around = record { has_pack = λ p. true; random = counted }

abbrev one : Json
one = number (record { negative = false; numerator = 1; scale = 0 })

-- {"input": …, "output": …, "schema_version": 1, "type": …}
abbrev recipe : String → Json
recipe output = object (
    member "input" (array (item (string "coal") no_items)) (
      member "output" (string output)
        (member "schema_version" one (member "type" (string "crafting") no_members))))

abbrev raw : Json → Raw
raw v = record { size = 90; value = some v; has_more = false }

abbrev creation : CreateContentInput
creation = record {
  kind = " recipe";
  slug = "torch ";
  title = "Torch";
  payload = raw (recipe "torch");
}

abbrev doc : String
doc = "content-i"

-- A document, an application of its first draft, into which a newer draft falls, and a rollback.
abbrev started_calls : List ContentCall
started_calls =
    creates_content around 1 "p" creation
    ∷ validates around 2 "p" doc ""
    ∷ checks "p" doc ""
    ∷ saves_draft around 3 "p" doc (pos 1) (raw (recipe "lamp"))
    ∷ promotes 4 0
    ∷ []

abbrev later_calls : List ContentCall
later_calls =
    rolls_back around 5 "p" doc "content-revision-ii" ∷ checks "p" doc "" ∷ promotes 6 0 ∷ []

current : ContentStore
current = (run_content started_calls no_content).store

-- The application took the first draft, though a newer one had been saved.
states_after :
    map (λ (d : Document). map (λ (r : Revision). r.state) d.revisions) current.documents
    ≡ ((draft ∷ applied ∷ []) ∷ [])
unfolding current run_content no_content insert_by
states_after = refl

run_content-OneActive_example : All OneActive (run_content started_calls no_content).store.documents
run_content-OneActive_example = run_content-OneActive started_calls

run_content-reviewed_example :
    All
      (λ (d : Document). All (λ r. reviewed d.kind r ≡ true) d.revisions)
      (run_content started_calls no_content).store.documents
run_content-reviewed_example = run_content-reviewed started_calls

run_content-Numbered_example :
    All
      (λ (d : Document).
        Numbered d.revisions × All (λ r. is_payload d.kind r.payload ≡ true) d.revisions)
      (run_content started_calls no_content).store.documents
run_content-Numbered_example = run_content-Numbered started_calls

abbrev revision : String → ℕ → RevisionState → String → ℕ → Revision
revision id n state output at = record {
  id = id;
  number = n;
  state = state;
  payload = recipe output;
  source = none;
  created_at = at;
}

abbrev torch : Document
torch = record {
  id = doc;
  pack_id = "p";
  kind = "recipe";
  slug = "torch";
  title = "Torch";
  active = some "content-revision-ii";
  created_at = 1;
  updated_at = 4;
  revisions =
      revision "content-revision-iiii" 2 draft "lamp" 3
      ∷ revision "content-revision-ii" 1 applied "torch" 1
      ∷ [];
}

found_torch :
    find_document "p" doc (run_content started_calls no_content).store.documents ≡ some torch
unfolding find_document run_content no_content insert_by
found_torch = refl

history-Lasts_example :
    Lasts "p" doc torch
      (run_content later_calls (run_content started_calls no_content)).store.documents
history-Lasts_example = history-Lasts started_calls later_calls "p" doc found_torch

abbrev now_inv : All DocumentInv (run_content started_calls no_content).store.documents
now_inv = (run_content-ProgressInv started_calls no_content no_content-ProgressInv).documents

abbrev gone_back : Revision
gone_back = record (revision "content-revision-iiiii" 3 draft "torch" 5) {
  source = some "content-revision-ii";
}

rolls_torch :
    let s = (run_content started_calls no_content).store in
    rollback_content around 5 "p" doc "content-revision-ii" s
    ≡ ((rollback_content around 5 "p" doc "content-revision-ii" s).0, gives gone_back)
unfolding rollback_content run_content no_content insert_by
rolls_torch = refl

rollback_content-RollsBack_example :
    let s = (run_content started_calls no_content).store in
    RollsBack "p" doc "content-revision-ii" s
      (rollback_content around 5 "p" doc "content-revision-ii" s).0
      gone_back
rollback_content-RollsBack_example =
    rollback_content-RollsBack around 5 "p" doc "content-revision-ii"
      (run_content started_calls no_content).store now_inv rolls_torch

saves_torch :
    let s = (run_content started_calls no_content).store in
    save_content_draft around 7 "p" doc (pos 2) (raw (recipe "lantern")) s ≡ (
      (save_content_draft around 7 "p" doc (pos 2) (raw (recipe "lantern")) s).0,
      gives (revision "content-revision-iiiii" 3 draft "lantern" 7),
    )
unfolding save_content_draft run_content no_content insert_by
saves_torch = refl

save_content_draft-again_example :
    let s' =
      (save_content_draft around 7 "p" doc
        (pos 2)
        (raw (recipe "lantern"))
        (run_content started_calls no_content).store).0 in
    let r = revision "content-revision-iiiii" 3 draft "lantern" 7 in
    ((d : Document) × (get_content "p" doc s' ≡ gives (d, r)))
    × (save_content_draft around 8 "p" doc (pos 3) (raw (recipe "lantern")) s'
        ≡ (taking (suc s'.generated) s', gives r))
save_content_draft-again_example =
    save_content_draft-again around around 7 8 "p" doc (pos 2) (raw (recipe "lantern"))
      (run_content started_calls no_content).store now_inv saves_torch

reads_torch :
    get_content_document "p" doc (run_content started_calls no_content).store
    ≡ some (torch, revision "content-revision-iiii" 2 draft "lamp" 3)
unfolding get_content_document run_content no_content insert_by
reads_torch = refl

canonical_lantern :
    canonical_content_payload "recipe" (raw (recipe "lantern")) ≡ some (recipe "lantern")
unfolding canonical_content_payload
canonical_lantern = refl

not_first : ◌≢◌ {A = ℕ} 2 (suc 0)
not_first e = omega arith

save_content_draft-stale_example :
    let s = (run_content started_calls no_content).store in
    save_content_draft around 7 "p" doc (pos 1) (raw (recipe "lantern")) s
    ≡ (taking (suc s.generated) s, refuses revision_conflict)
save_content_draft-stale_example =
    save_content_draft-stale around 7 "p" doc 0 (raw (recipe "lantern"))
      (run_content started_calls no_content).store reads_torch canonical_lantern not_first

json_within_bounds-nesting_example :
    json_within_bounds 15 (recipe "torch")
    ≡ (leb (15 + nesting (recipe "torch")) 16 && narrow (recipe "torch"))
json_within_bounds-nesting_example = json_within_bounds-nesting 15 (recipe "torch")
