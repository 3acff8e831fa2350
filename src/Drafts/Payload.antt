-- ===== src/Drafts/Payload.antt =====
-- apps/server/internal/service/content.go: the payloads of content, `canonicalContentPayload` and
-- `validateContentSemantics`.
use m_pack_station.Base.{
  ℕ, String, Bool, true, false, ◌&&◌, ◌||◌, leb, ltb, ◌==◌, ◌+◌, ◌*◌, ◌/◌, ◌%◌, ◌^◌, str_eq, not,
  if◌then◌else◌, Option, none, some, is_some, List, [], ◌∷◌, ◌++◌, any,
}
use m_pack_station.Drafts.Json.{
  Json, Number, null, number, object, Members, no_members, member, json_within_bounds,
}

-- The bytes of a payload: how many, the first value that a decoder reads in them, none where that
-- fails, and whether the next read is not the end of the input.
pub record Raw : Type 0 where
  pub size : ℕ
  pub value : Option Json
  pub has_more : Bool

abbrev pub contains_text : String → List String → Bool
contains_text s [] = false
contains_text s (t ∷ ts) = str_eq t s || contains_text s ts

-- contentFields
unfoldable pub content_fields : String → List String
content_fields kind =
    if str_eq kind "recipe"
    then "schema_version" ∷ "type" ∷ "input" ∷ "output" ∷ "conditions" ∷ "metadata" ∷ []
    else if str_eq kind "structure"
    then "schema_version" ∷ "file" ∷ "size" ∷ "rotation" ∷ "anchor" ∷ "parameters" ∷ "preview"
      ∷ "metadata" ∷ []
    else if str_eq kind "ore"
    then "schema_version" ∷ "dimension" ∷ "block" ∷ "min_y" ∷ "max_y" ∷ "count" ∷ "frequency"
      ∷ "distribution" ∷ "biomes" ∷ "metadata" ∷ []
    else []

-- Every key of the object is a field of the kind.
unfoldable pub fields_known : String → Members → Bool
unfolding content_fields
fields_known kind no_members = true
fields_known kind (member k x ms) = contains_text k (content_fields kind) && fields_known kind ms

-- A value that a payload may be: an object of known fields, within the bounds.
unfoldable pub is_payload : String → Json → Bool
unfolding json_within_bounds fields_known
is_payload kind (object ms) = json_within_bounds 0 (object ms) && fields_known kind ms
is_payload kind _ = false

-- canonicalContentPayload; none is ErrInvalidArgument.
unfoldable pub canonical_content_payload : String → Raw → Option Json
unfolding is_payload
canonical_content_payload kind raw = elim raw.value [
  | none ↦ none
  | some v ↦
      if raw.size == 0 || ltb 262144 raw.size || raw.has_more || not (is_payload kind v)
      then none
      else some v
]

pub data IssueCode : Type 0 where
  invalid_json schema_version_required field_required ore_range_invalid : IssueCode

pub data Severity : Type 0 where
  error warning : Severity

-- A ValidationIssue; the field is the key in its path, and each code has one message.
pub record Issue : Type 0 where
  pub code : IssueCode
  pub severity : Severity
  pub path : String

unfoldable pub get_member : String → Members → Option Json
get_member k no_members = none
get_member k (member l x ms) = let rest = get_member k ms in if str_eq l k then some x else rest

abbrev pub as_number : Option Json → Option Number
as_number (some (number n)) = some n
as_number _ = none

-- sv >= 1 && sv == float64(int(sv)), where a conversion out of the range of an int gives its least
-- value, as on amd64.
unfoldable pub is_positive_integer : Number → Bool
is_positive_integer n =
    not n.negative
    && leb (2 ^ n.scale) n.numerator
    && n.numerator % 2 ^ n.scale == 0
    && ltb (n.numerator / 2 ^ n.scale) (2 ^ 63)

-- a > b; the zeros are equal.
unfoldable pub number_gt : Number → Number → Bool
number_gt a b =
    let x = a.numerator * 2 ^ b.scale in
    let y = b.numerator * 2 ^ a.scale in
    if a.negative then b.negative && ltb x y else if b.negative then ltb 0 (x + y) else ltb y x

abbrev pub issue_unless : Bool → IssueCode → String → List Issue
issue_unless true code path = []
issue_unless false code path = record { code = code; severity = error; path = path } ∷ []

unfoldable pub required_fields : String → List String
required_fields kind =
    if str_eq kind "recipe"
    then "type" ∷ "input" ∷ "output" ∷ []
    else if str_eq kind "structure"
    then "file" ∷ "size" ∷ []
    else if str_eq kind "ore"
    then "dimension" ∷ "block" ∷ "min_y" ∷ "max_y" ∷ []
    else []

unfoldable pub missing_fields : List String → Members → List Issue
unfolding get_member
missing_fields [] ms = []
missing_fields (k ∷ ks) ms =
    issue_unless (is_some (get_member k ms)) field_required k ++ missing_fields ks ms

abbrev pub version_ok : Option Number → Bool
version_ok none = false
version_ok (some n) = is_positive_integer n

abbrev pub range_ok : Option Number → Option Number → Bool
range_ok (some min) (some max) = not (number_gt min max)
range_ok _ _ = true

-- The members that json.Unmarshal puts into a map: null leaves it nil, without an error.
abbrev pub members_of : Json → Option Members
members_of (object ms) = some ms
members_of null = some no_members
members_of _ = none

unfoldable pub member_issues : String → Members → List Issue
unfolding get_member required_fields missing_fields is_positive_integer number_gt
member_issues kind ms =
    issue_unless (version_ok (as_number (get_member "schema_version" ms))) schema_version_required
      "schema_version"
    ++ missing_fields (required_fields kind) ms
    ++ issue_unless
        (not (str_eq kind "ore")
          || range_ok (as_number (get_member "min_y" ms)) (as_number (get_member "max_y" ms)))
        ore_range_invalid "min_y"

-- validateContentSemantics
unfoldable pub validate_content_semantics : String → Json → List Issue
unfolding member_issues
validate_content_semantics kind v = elim (members_of v) [
  | none ↦ record { code = invalid_json; severity = error; path = "" } ∷ []
  | some ms ↦ member_issues kind ms
]

abbrev pub is_error : Severity → Bool
is_error error = true
is_error warning = false

-- isBlocking
unfoldable pub is_blocking : List Issue → Bool
is_blocking issues = any (λ (i : Issue). is_error i.severity) issues

-- The status of a validation run: each issue in turn, up to the first error.
pub data RunStatus : Type 0 where
  passed warned failed : RunStatus

unfoldable pub run_status : List Issue → RunStatus → RunStatus
run_status [] status = status
run_status (i ∷ is) status =
    let rest = run_status is warned in if is_error i.severity then failed else rest
