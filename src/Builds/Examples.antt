-- ===== src/Builds/Examples.antt =====
-- Concrete builds of apps/server/internal/service/build.go.
use m_pack_station.Base.{
  String, List, [], ◌∷◌, true, ◌≡◌, ◌↔◌, refl, some, none, All, map, sort_by, insert_by, false,
}
use m_pack_station.Quests.Pigeons.{AllDistinct}
use m_pack_station.Builds.Archive.{
  safe_archive_path, safe_version_name, join_slash, clean_parts, clean_part,
}
use m_pack_station.Builds.Safe.{IsSafe, safe_archive_path-IsSafe}
use m_pack_station.Builds.Manifest.{
  BuildFile, BuildInput, NormalizedBuildFile, PackVersionInputRecord, validate_build_input,
  build_files, valid_delivery_check,
}
use m_pack_station.Builds.Zip.{fixed_header, ZipEntry, verify_zip, write_deterministic_zip}
use m_pack_station.Builds.Written.{Fits, path_of, validate_build_input-Fits}
use m_pack_station.Builds.Archived.{IsWithin, listed, verify_zip-write_deterministic_zip}
use m_pack_station.Builds.Provenance.{
  Rules, BuildTables, leaves, fails, input_conflict, record_build_inputs,
}
use m_pack_station.Builds.Kept.{Keeps, HasInput, record_build_inputs-Keeps}
use m_pack_station.Content.Paths.{segments}

cleaned : safe_archive_path "./mods//a/../b.jar" ≡ some "mods/b.jar"
unfolding safe_archive_path join_slash clean_parts segments clean_part
cleaned = refl

rooted : safe_archive_path "\\etc\\passwd" ≡ none
unfolding safe_archive_path
rooted = refl

climbing : safe_archive_path "mods/../../x" ≡ none
unfolding safe_archive_path join_slash clean_parts segments clean_part
climbing = refl

-- Two steps up are none, one is refused.
twice_up : safe_archive_path "../../x" ≡ some "x"
unfolding safe_archive_path join_slash clean_parts segments clean_part
twice_up = refl

-- A drive is refused in front only before the path is cleaned.
behind_a_dot : safe_archive_path "./C:/x" ≡ some "C:/x"
unfolding safe_archive_path join_slash clean_parts segments clean_part
behind_a_dot = refl

drive : safe_archive_path "C:/x" ≡ none
unfolding safe_archive_path
drive = refl

named : safe_version_name "1.2 beta/3" ≡ "1.2_beta_3"
unfolding safe_version_name
named = refl

unnamed : safe_version_name "" ≡ "version"
unfolding safe_version_name
unnamed = refl

gate : valid_delivery_check "quest" "warning" ≡ true
unfolding valid_delivery_check
gate = refl

abbrev files : List BuildFile
files =
    record { path = "mods\\b.jar"; content = 1 ∷ 2 ∷ [] }
    ∷ record { path = "config/./a.toml"; content = [] }
    ∷ []

abbrev input : BuildInput
input = record {
  pack_id = "p";
  pack_version_id = "v";
  export_dir_name = "out";
  task_id = "";
  files = files;
  lock_snapshot = "";
  content_snapshot = "";
  quest_snapshot = "";
  build_config = "";
  checks = [];
}

abbrev normal : List NormalizedBuildFile
normal =
    record { path = "config/a.toml"; bytes = [] }
    ∷ record { path = "mods/b.jar"; bytes = 1 ∷ 2 ∷ [] }
    ∷ []

accepted : validate_build_input input ≡ true
unfolding validate_build_input safe_archive_path join_slash clean_parts segments clean_part
accepted = refl

built : build_files files ≡ some normal
unfolding build_files safe_archive_path join_slash clean_parts segments clean_part sort_by insert_by
built = refl

safe_archive_path-IsSafe_example : IsSafe "mods/b.jar"
safe_archive_path-IsSafe_example = safe_archive_path-IsSafe "./mods//a/../b.jar" cleaned

validate_build_input-Fits_example :
    (gs : List NormalizedBuildFile) × (build_files files ≡ some gs)
    × All Fits gs
    × AllDistinct (map path_of gs)
validate_build_input-Fits_example = validate_build_input-Fits input accepted

verify_zip-write_deterministic_zip_example :
    (es : List ZipEntry) × (write_deterministic_zip (λ s. 13) normal ≡ some es)
    × All (λ e. e.header ≡ fixed_header) es
    × All (λ e. e.is_symlink ≡ false) es
    × ((found : List ZipEntry)
        → All IsWithin found
        → (verify_zip (some found) normal ≡ true) ↔ (map listed found ≡ map listed es))
verify_zip-write_deterministic_zip_example =
    verify_zip-write_deterministic_zip (λ s. 13) input accepted built (refl, (refl, tt))

abbrev rules : Rules
rules = record { json_valid = λ s. true; is_hash = λ s. true }

abbrev tables : BuildTables
tables = record { versions = ("p", "v") ∷ []; inputs = []; deliveries = [] }

abbrev lock_input : String → PackVersionInputRecord
lock_input payload = record {
  id = "i";
  pack_version_id = "";
  kind = "lock";
  source_id = "snapshot";
  input_hash = "h";
  payload = payload;
  created_at = 9;
}

abbrev with_lock : BuildTables
with_lock = record tables { inputs = record (lock_input "{}") { pack_version_id = "v" } ∷ [] }

recorded : record_build_inputs rules "p" "v" (lock_input "{}" ∷ []) [] tables ≡ leaves with_lock
unfolding record_build_inputs
recorded = refl

-- Another payload for the same version is a conflict.
changed :
    record_build_inputs rules "p" "v" (lock_input "[]" ∷ []) [] with_lock ≡ fails input_conflict
unfolding record_build_inputs
changed = refl

again : record_build_inputs rules "p" "v" (lock_input "{}" ∷ []) [] with_lock ≡ leaves with_lock
unfolding record_build_inputs
again = refl

record_build_inputs-Keeps_example :
    Keeps with_lock.inputs with_lock.inputs
    × All (HasInput "v" with_lock.inputs) (lock_input "{}" ∷ [])
record_build_inputs-Keeps_example =
    record_build_inputs-Keeps rules "p" "v" (lock_input "{}" ∷ []) [] with_lock again
