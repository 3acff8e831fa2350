-- ===== src/Builds/Provenance.antt =====
-- apps/server/internal/store/publish_repo.go, `RecordBuildInputs`: the inputs of a build and its
-- delivery checks, in one transaction. `Rules` are SQLite's json_valid and the length of a hash.
use m_pack_station.Base.{
  String, Bool, List, [], ◌∷◌, ◌++◌, Option, none, some, str_eq, if◌then◌else◌, ◌&&◌, ◌||◌, not,
  any,
}
use m_pack_station.Builds.Manifest.{
  PackVersionInputRecord, DeliveryCheckRecord, valid_delivery_check,
}

pub record Rules : Type 0 where
  pub json_valid : String → Bool
  pub is_hash : String → Bool

pub data RecordError : Type 0 where
  version_not_found : RecordError
  invalid_record : RecordError
  input_conflict : RecordError
  constraint_failed : RecordError

-- What a statement or a transaction leaves, or its error.
pub data Recorded (A : Type 0) : Type 0 where
  leaves : A → Recorded A
  fails : RecordError → Recorded A

pub record BuildTables : Type 0 where
  pub versions : List (String × String)
  pub inputs : List PackVersionInputRecord
  pub deliveries : List DeliveryCheckRecord

abbrev pub is_input : String → String → String → PackVersionInputRecord → Bool
is_input version kind source r =
    str_eq r.pack_version_id version && str_eq r.kind kind && str_eq r.source_id source

-- The row of an input, of which the table has one for each version, kind and source.
unfoldable pub find_input :
    String → String → String → List PackVersionInputRecord → Option PackVersionInputRecord
find_input version kind source [] = none
find_input version kind source (r ∷ rs) =
    let rest = find_input version kind source rs in
    if is_input version kind source r then some r else rest

abbrev pub is_input_kind : String → Bool
is_input_kind k =
    str_eq k "lock" || str_eq k "content" || str_eq k "quest" || str_eq k "build_config"

-- The INSERT, which the constraints of the table may refuse.
unfoldable pub insert_input :
    Rules
    → String
    → PackVersionInputRecord
    → List PackVersionInputRecord
    → Recorded (List PackVersionInputRecord)
insert_input ru version x rows =
    if any (λ (r : PackVersionInputRecord). str_eq r.id x.id) rows
      || not (is_input_kind x.kind)
      || not (ru.is_hash x.input_hash)
      || not (ru.json_valid x.payload)
    then fails constraint_failed
    else leaves (rows ++ (record x { pack_version_id = version } ∷ []))

abbrev pub same_input : PackVersionInputRecord → PackVersionInputRecord → Bool
same_input old x = str_eq old.input_hash x.input_hash && str_eq old.payload x.payload

unfoldable pub record_input :
    Rules
    → String
    → PackVersionInputRecord
    → List PackVersionInputRecord
    → Recorded (List PackVersionInputRecord)
unfolding find_input insert_input
record_input ru version x rows =
    if str_eq x.id "" || str_eq x.kind "" || str_eq x.input_hash ""
    then fails invalid_record
    else elim (find_input version x.kind x.source_id rows) [
      | none ↦ insert_input ru version x rows
      | some old ↦ if same_input old x then leaves rows else fails input_conflict
    ]

unfoldable pub record_inputs :
    Rules
    → String
    → List PackVersionInputRecord
    → List PackVersionInputRecord
    → Recorded (List PackVersionInputRecord)
unfolding record_input
record_inputs ru version [] rows = leaves rows
record_inputs ru version (x ∷ xs) rows = elim (record_input ru version x rows) [
  | fails e ↦ fails e
  | leaves rows' ↦ record_inputs ru version xs rows'
]

abbrev pub is_gate : String → String → String → DeliveryCheckRecord → Bool
is_gate pack version kind r =
    str_eq r.pack_id pack && str_eq r.pack_version_id version && str_eq r.kind kind

-- DO UPDATE of the row for the same pack, version and kind.
unfoldable pub update_gate :
    String → String → DeliveryCheckRecord → List DeliveryCheckRecord → List DeliveryCheckRecord
update_gate pack version c [] = []
update_gate pack version c (r ∷ rs) =
    let rest = update_gate pack version c rs in
    if is_gate pack version c.kind r
    then record r {
      status = c.status;
      detail = c.detail;
      input_fingerprint = c.input_fingerprint;
      run_id = c.run_id;
      checked_at = c.checked_at;
    }
      ∷ rest
    else r ∷ rest

abbrev pub or_braces : String → String
or_braces detail = if str_eq detail "" then "{}" else detail

unfoldable pub record_check :
    Rules
    → String
    → String
    → DeliveryCheckRecord
    → List DeliveryCheckRecord
    → Recorded (List DeliveryCheckRecord)
unfolding update_gate valid_delivery_check
record_check ru pack version c rows =
    let row = record c { pack_id = pack; pack_version_id = version; detail = or_braces c.detail } in
    if str_eq c.id "" || str_eq c.kind "" || str_eq c.status ""
    then fails invalid_record
    else if not (ru.json_valid row.detail)
    then fails invalid_record
    else if not (valid_delivery_check c.kind c.status)
        || any (λ (r : DeliveryCheckRecord). str_eq r.id c.id) rows
    then fails constraint_failed
    else if any (is_gate pack version c.kind) rows
    then leaves (update_gate pack version row rows)
    else leaves (rows ++ (row ∷ []))

unfoldable pub record_checks :
    Rules
    → String
    → String
    → List DeliveryCheckRecord
    → List DeliveryCheckRecord
    → Recorded (List DeliveryCheckRecord)
unfolding record_check
record_checks ru pack version [] rows = leaves rows
record_checks ru pack version (c ∷ cs) rows = elim (record_check ru pack version c rows) [
  | fails e ↦ fails e
  | leaves rows' ↦ record_checks ru pack version cs rows'
]

unfoldable pub has_version : String → String → BuildTables → Bool
has_version pack version t =
    any (λ (v : String × String). str_eq (v.0) pack && str_eq (v.1) version) t.versions

unfoldable pub record_build_inputs :
    Rules
    → String
    → String
    → List PackVersionInputRecord
    → List DeliveryCheckRecord
    → BuildTables
    → Recorded BuildTables
unfolding has_version record_inputs record_checks
record_build_inputs ru pack version xs cs t =
    if not (has_version pack version t)
    then fails version_not_found
    else elim (record_inputs ru version xs t.inputs) [
      | fails e ↦ fails e
      | leaves inputs ↦ elim (record_checks ru pack version cs t.deliveries) [
        | fails e ↦ fails e
        | leaves deliveries ↦ leaves (record t { inputs = inputs; deliveries = deliveries })
      ]
    ]

-- HasBlockedDeliveryCheck
unfoldable pub has_blocked_delivery_check : String → String → BuildTables → Bool
has_blocked_delivery_check pack version t =
    any
      (λ (r : DeliveryCheckRecord).
        str_eq r.pack_id pack && str_eq r.pack_version_id version && str_eq r.status "blocked")
      t.deliveries
