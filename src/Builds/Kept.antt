-- ===== src/Builds/Kept.antt =====
-- What `RecordBuildInputs` of apps/server/internal/store/publish_repo.go keeps of a version's inputs.
use m_pack_station.Base.{
  String, true, List, [], ◌∷◌, ◌++◌, ◌≡◌, refl, ap, arith, All, Bool-cases, inl, inr, none, some,
  Option-cases, eq_refl, str_eq→eq, ◌⊎◌, subst,
}
use m_pack_station.Builds.Manifest.{PackVersionInputRecord, DeliveryCheckRecord}
use m_pack_station.Builds.Provenance.{
  Rules, BuildTables, Recorded, leaves, fails, RecordError, find_input, insert_input, record_input,
  record_inputs, record_checks, record_build_inputs, is_input, same_input,
}

abbrev pub Keeps : (rows rows' : List PackVersionInputRecord) → Type 0
Keeps rows rows' =
    (version kind source : String) (r : PackVersionInputRecord)
    → find_input version kind source rows ≡ some r
    → find_input version kind source rows' ≡ some r

-- The version has the input, with this hash and payload.
abbrev pub HasInput : String → List PackVersionInputRecord → PackVersionInputRecord → Type 0
HasInput version rows x =
    (r : PackVersionInputRecord) × (find_input version x.kind x.source_id rows ≡ some r)
    × (r.input_hash ≡ x.input_hash)
    × (r.payload ≡ x.payload)

find_input-append :
    (version kind source : String) (rows : List PackVersionInputRecord)
    (more : List PackVersionInputRecord) {r : PackVersionInputRecord}
    → find_input version kind source rows ≡ some r
    → find_input version kind source (rows ++ more) ≡ some r
unfolding find_input
find_input-append version kind source [] more h = absurd (cc)
find_input-append version kind source (x ∷ xs) more h =
    elim (Bool-cases (is_input version kind source x)) [
      | inl e ↦ rw e (rw e at h)
      | inr e ↦ rw e (find_input-append version kind source xs more (rw e at h))
    ]

find_input-last :
    (version kind source : String) (rows : List PackVersionInputRecord) (x : PackVersionInputRecord)
    → find_input version kind source rows ≡ none
    → is_input version kind source x ≡ true
    → find_input version kind source (rows ++ (x ∷ [])) ≡ some x
unfolding find_input
find_input-last version kind source [] x h e = rw e refl
find_input-last version kind source (r ∷ rs) x h e =
    elim (Bool-cases (is_input version kind source r)) [
      | inl k ↦ absurd (ground arith)
      | inr k ↦ rw k (find_input-last version kind source rs x (rw k at h) e)
    ]

insert_input-leaves :
    (ru : Rules) (version : String) (x : PackVersionInputRecord)
    (rows : List PackVersionInputRecord) {rows' : List PackVersionInputRecord}
    → insert_input ru version x rows ≡ leaves rows'
    → (rows ++ (record x { pack_version_id = version } ∷ [])) ≡ rows'
unfolding insert_input
insert_input-leaves ru version x rows h = ground arith

inserted :
    (ru : Rules) (version : String) (x : PackVersionInputRecord)
    (rows : List PackVersionInputRecord) {rows' : List PackVersionInputRecord}
    → find_input version x.kind x.source_id rows ≡ none
    → insert_input ru version x rows ≡ leaves rows'
    → Keeps rows rows' × HasInput version rows' x
inserted ru version x rows {rows'} free h =
    let row : PackVersionInputRecord = record x { pack_version_id = version } in
    let same = insert_input-leaves ru version x rows h in
    subst (λ l. Keeps rows l × HasInput version l x) same
      (
        λ v k s r g. find_input-append v k s rows (row ∷ []) g,
        (
          row,
          find_input-last version x.kind x.source_id rows row free
              (rw (eq_refl version, eq_refl x.kind, eq_refl x.source_id) refl),
          refl,
          refl,
        ),
      )

record_input-leaves :
    (ru : Rules) (version : String) (x : PackVersionInputRecord)
    (rows : List PackVersionInputRecord) {rows' : List PackVersionInputRecord}
    → record_input ru version x rows ≡ leaves rows'
    → Keeps rows rows' × HasInput version rows' x
unfolding record_input
record_input-leaves ru version x rows {rows'} h =
    elim (Option-cases (find_input version x.kind x.source_id rows)) [
      | inl e ↦ inserted ru version x rows e (ground arith)
      | inr (old, e) ↦
          let same : same_input old x ≡ true = ground arith in
          let unchanged : rows ≡ rows' = ground arith in
          subst (λ l. Keeps rows l × HasInput version l x) unchanged
            (
              λ v k s r g. g,
              (
                old,
                e,
                str_eq→eq old.input_hash x.input_hash (ground arith),
                str_eq→eq old.payload x.payload (ground arith),
              ),
            )
    ]

Keeps-HasInput :
    (version : String) (rows rows' : List PackVersionInputRecord) (x : PackVersionInputRecord)
    → Keeps rows rows'
    → HasInput version rows x
    → HasInput version rows' x
Keeps-HasInput version rows rows' x k (r, e, hash, payload) =
    (r, k version x.kind x.source_id r e, hash, payload)

Recorded-cases :
    {A : Type 0} (o : Recorded A) → ((e : RecordError) × (o ≡ fails e)) ⊎ ((a : A) × (o ≡ leaves a))
Recorded-cases (fails e) = inl (e, refl)
Recorded-cases (leaves a) = inr (a, refl)

or_else : {A : Type 0} → A → Recorded A → A
or_else d (leaves a) = a
or_else d (fails e) = d

record_inputs-leaves :
    (ru : Rules) (version : String) (xs rows : List PackVersionInputRecord)
    {rows' : List PackVersionInputRecord}
    → record_inputs ru version xs rows ≡ leaves rows'
    → Keeps rows rows' × All (HasInput version rows') xs
unfolding record_inputs or_else
record_inputs-leaves ru version [] rows h =
    subst (λ l. Keeps rows l × Unit {0}) (ap (or_else rows) h) (λ v k s r g. g, tt)
record_inputs-leaves ru version (x ∷ xs) rows {rows'} h =
    elim (Recorded-cases (record_input ru version x rows)) [
      | inl (e, k) ↦ absurd (ground arith)
      | inr (mid, k) ↦
          let here = record_input-leaves ru version x rows k in
          let rest = record_inputs-leaves ru version xs mid (rw (k, record_inputs) at h) in
          (
            λ v kind s r g. rest.0 v kind s r (here.0 v kind s r g),
            (Keeps-HasInput version mid rows' x (rest.0) (here.1), rest.1),
          )
    ]

record_build_inputs-inputs :
    (ru : Rules) (pack version : String) (xs : List PackVersionInputRecord)
    (cs : List DeliveryCheckRecord) (t : BuildTables) {t' : BuildTables}
    → record_build_inputs ru pack version xs cs t ≡ leaves t'
    → record_inputs ru version xs t.inputs ≡ leaves t'.inputs
unfolding record_build_inputs
record_build_inputs-inputs ru pack version xs cs t h =
    elim (Recorded-cases (record_inputs ru version xs t.inputs)) [
      | inl (e, k) ↦ absurd (ground arith)
      | inr (rows, k) ↦ elim (Recorded-cases (record_checks ru pack version cs t.deliveries)) [
        | inl (e, l) ↦ absurd (ground arith)
        | inr (deliveries, l) ↦ ground arith
      ]
    ]

-- A recording that succeeds keeps all that any version's inputs were recorded with, and leaves each
-- input that was given recorded for its version, with its hash and payload.
pub record_build_inputs-Keeps :
    (ru : Rules) (pack version : String) (xs : List PackVersionInputRecord)
    (cs : List DeliveryCheckRecord) (t : BuildTables) {t' : BuildTables}
    → record_build_inputs ru pack version xs cs t ≡ leaves t'
    → Keeps t.inputs t'.inputs × All (HasInput version t'.inputs) xs
record_build_inputs-Keeps ru pack version xs cs t h =
    record_inputs-leaves ru version xs t.inputs
      (record_build_inputs-inputs ru pack version xs cs t h)
