-- ===== src/Drafts/Service.antt =====
-- apps/server/internal/service/content.go: the operations on documents and revisions. `ready` is
-- taken to hold, and a database that fails otherwise is not modelled.
use Prim.Native.String as Text
use Prim.Native.String.{len, ◌++◌ as text_append}
use Prim.Native.Char.{code}
use m_pack_station.Base.{
  ℕ, String, List, Option, Bool, none, str_eq, some, not, if◌then◌else◌, ◌&&◌, ◌||◌, [], ltb, suc,
  sort_by, str_lt, filter, zero,
}
use m_pack_station.Base.Int.{ℤ, pos, negsuc}
use m_pack_station.Publishing.Words.{is_space, is_blank}
use m_pack_station.Drafts.Json.{Json}
use m_pack_station.Drafts.Payload.{Raw, canonical_content_payload}
use m_pack_station.Drafts.Model.{
  draft, Revision, Document, ContentStore, ContentError, Surroundings, store_not_found, conflict,
  invalid_argument, content_not_found, duplicate_slug, revision_conflict, Reply, gives, refuses,
}
use m_pack_station.Drafts.Store.{
  find_document, latest_revision, create_content_document, save_content_draft_tx,
}

-- newID: the prefix, a dash, and the random part.
abbrev pub new_id : String → Surroundings → ℕ → String
new_id prefix w n = text_append prefix (text_append "-" (w.random n))

abbrev pub taking : ℕ → ContentStore → ContentStore
taking n s = record s { generated = n }

unfoldable pub trim_end : String → String
unfolding is_blank
trim_end Text.[] = ""
trim_end (Text.◌∷◌ c s) =
    let rest = trim_end s in if is_blank (Text.◌∷◌ c s) then "" else Text.◌∷◌ c rest

-- strings.TrimSpace
unfoldable pub trim_space : String → String
unfolding trim_end
trim_space Text.[] = ""
trim_space (Text.◌∷◌ c s) =
    let rest = trim_space s in if is_space (code c) then rest else trim_end (Text.◌∷◌ c s)

unfoldable pub valid_content_kind : String → Bool
valid_content_kind k = str_eq k "recipe" || str_eq k "structure" || str_eq k "ore"

pub record CreateContentInput : Type 0 where
  pub kind : String
  pub slug : String
  pub title : String
  pub payload : Raw

abbrev pub fits_document : String → String → String → Bool
fits_document kind slug title =
    valid_content_kind kind
    && not (str_eq slug "")
    && not (ltb 128 (len slug))
    && not (str_eq title "")
    && not (ltb 256 (len title))

abbrev pub new_document : String → String → String → String → String → ℕ → Document
new_document id pack kind slug title now = record {
  id = id;
  pack_id = pack;
  kind = kind;
  slug = slug;
  title = title;
  active = none;
  created_at = now;
  updated_at = now;
  revisions = [];
}

abbrev pub new_revision : String → Json → ℕ → Revision
new_revision id payload now = record {
  id = id;
  number = 1;
  state = draft;
  payload = payload;
  source = none;
  created_at = now;
}

abbrev pub created :
    Document
    → Revision
    → ContentStore × Option ContentError
    → ContentStore × Reply (Document × Revision)
created d r (s, none) = (s, gives (d, r))
created d r (s, some conflict) = (s, refuses duplicate_slug)
created d r (s, some e) = (s, refuses e)

-- CreateContent
unfoldable pub create_content :
    Surroundings
    → ℕ
    → String
    → CreateContentInput
    → ContentStore
    → ContentStore × Reply (Document × Revision)
unfolding trim_space valid_content_kind canonical_content_payload create_content_document
create_content w now pack x s =
    let kind = trim_space x.kind in
    let slug = trim_space x.slug in
    let title = trim_space x.title in
    if not (w.has_pack pack)
    then (s, refuses store_not_found)
    else if not (fits_document kind slug title)
    then (s, refuses invalid_argument)
    else elim (canonical_content_payload kind x.payload) [
      | none ↦ (s, refuses invalid_argument)
      | some payload ↦
          let n = s.generated in
          let d = new_document (new_id "content" w n) pack kind slug title now in
          let r = new_revision (new_id "content-revision" w (suc n)) payload now in
          created d r (create_content_document d r (taking (suc (suc n)) s))
    ]

-- The repository's GetContentDocument.
unfoldable pub get_content_document : String → String → ContentStore → Option (Document × Revision)
unfolding find_document latest_revision
get_content_document pack id s = elim (find_document pack id s.documents) [
  | none ↦ none
  | some d ↦ elim (latest_revision d.revisions) [ none ↦ none | some r ↦ some (d, r) ]
]

-- GetContent
unfoldable pub get_content : String → String → ContentStore → Reply (Document × Revision)
unfolding get_content_document
get_content pack id s = elim (get_content_document pack id s) [
  | none ↦ refuses content_not_found
  | some x ↦ gives x
]

-- ORDER BY kind,slug,id
abbrev pub listed_first : Document → Document → Bool
listed_first a b =
    str_lt a.kind b.kind
    || str_eq a.kind b.kind && (str_lt a.slug b.slug || str_eq a.slug b.slug && str_lt a.id b.id)

-- ListContent
unfoldable pub list_content : Surroundings → String → String → ContentStore → Reply (List Document)
unfolding valid_content_kind sort_by
list_content w pack kind s =
    if not (str_eq kind "") && not (valid_content_kind kind)
    then refuses invalid_argument
    else if not (w.has_pack pack)
    then refuses store_not_found
    else gives (
        sort_by listed_first (
          filter (λ (d : Document). str_eq d.pack_id pack && (str_eq kind "" || str_eq d.kind kind))
            s.documents))

abbrev pub conflict_of_revision : ContentError → ContentError
conflict_of_revision conflict = revision_conflict
conflict_of_revision e = e

abbrev pub saved : ContentStore × Reply Revision → ContentStore × Reply Revision
saved (s, gives r) = (s, gives r)
saved (s, refuses e) = (s, refuses (conflict_of_revision e))

-- SaveContentDraft, with a payload that is canonical.
unfoldable pub save_payload :
    Surroundings → ℕ → String → String → ℤ → Json → ContentStore → ContentStore × Reply Revision
unfolding save_content_draft_tx
save_payload w now pack id (negsuc n) payload s = (s, refuses invalid_argument)
save_payload w now pack id (pos zero) payload s = (s, refuses invalid_argument)
save_payload w now pack id (pos (suc n)) payload s =
    let r = new_revision (new_id "content-revision" w s.generated) payload now in
    saved (save_content_draft_tx pack id (suc n) r (taking (suc s.generated) s))

-- SaveContentDraft
unfoldable pub save_content_draft :
    Surroundings → ℕ → String → String → ℤ → Raw → ContentStore → ContentStore × Reply Revision
unfolding get_content_document canonical_content_payload save_payload
save_content_draft w now pack id if_match raw s = elim (get_content_document pack id s) [
  | none ↦ (s, refuses content_not_found)
  | some (d, latest) ↦ elim (canonical_content_payload d.kind raw) [
    | none ↦ (s, refuses invalid_argument)
    | some payload ↦ save_payload w now pack id if_match payload s
  ]
]
