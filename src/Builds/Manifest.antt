-- ===== src/Builds/Manifest.antt =====
-- apps/server/internal/service/build.go: the input of a build, its checks, and the manifest that is
-- made of it. `Codec` stands for encoding/json, crypto/sha256 and the random parts of ids.
use Prim.Native.String.{◌++◌ as text_append}
use m_pack_station.Base.{
  ◌>>=◌, ℕ, suc, String, Bool, true, false, List, [], ◌∷◌, Option, none, some, str_eq, ltb, length,
  if◌then◌else◌, ◌&&◌, ◌||◌, not, sort_by, str_lt, map,
}
use m_pack_station.Publishing.Words.{is_blank}
use m_pack_station.Quests.Pigeons.{mem}
use m_pack_station.Builds.Archive.{safe_archive_path}

pub record BuildFile : Type 0 where
  pub path : String
  pub content : List ℕ

pub record DeliveryCheck : Type 0 where
  pub kind : String
  pub status : String
  pub detail : String

pub record BuildInput : Type 0 where
  pub pack_id : String
  pub pack_version_id : String
  pub export_dir_name : String
  pub task_id : String
  pub files : List BuildFile
  pub lock_snapshot : String
  pub content_snapshot : String
  pub quest_snapshot : String
  pub build_config : String
  pub checks : List DeliveryCheck

pub record NormalizedBuildFile : Type 0 where
  pub path : String
  pub bytes : List ℕ

-- 512 << 20
abbrev pub max_content : ℕ
max_content = 536870912

-- The loop of `validateBuildInput`, with the paths that were seen.
unfoldable pub files_accepted : List BuildFile → List String → Bool
files_accepted [] seen = true
files_accepted (f ∷ fs) seen = elim (safe_archive_path f.path) [
  | none ↦ false
  | some p ↦
      let rest = files_accepted fs (p ∷ seen) in
      if ltb max_content (length f.content) || mem p seen then false else rest
]

abbrev pub is_none_of : List BuildFile → Bool
is_none_of [] = true
is_none_of (f ∷ fs) = false

unfoldable pub validate_build_input : BuildInput → Bool
unfolding is_blank files_accepted
validate_build_input x =
    if is_blank x.pack_id
      || is_blank x.pack_version_id
      || is_blank x.export_dir_name
      || is_none_of x.files
    then false
    else files_accepted x.files []

-- The first loop of `buildManifest`.
unfoldable pub normalized_files : List BuildFile → Option (List NormalizedBuildFile)
normalized_files [] = some []
normalized_files (f ∷ fs) = do
  p ← safe_archive_path f.path
  rest ← normalized_files fs
  some (record { path = p; bytes = f.content } ∷ rest)

abbrev pub path_before : NormalizedBuildFile → NormalizedBuildFile → Bool
path_before f g = str_lt f.path g.path

unfoldable pub build_files : List BuildFile → Option (List NormalizedBuildFile)
unfolding normalized_files
build_files fs = do files ← normalized_files fs; some (sort_by path_before files)

pub record FileFingerprint : Type 0 where
  pub path : String
  pub hash : String
  pub size : ℕ

-- The value that is hashed for the fingerprint of a build.
pub record BuildManifest : Type 0 where
  pub files : List FileFingerprint
  pub lock : String
  pub content : String
  pub quest : String
  pub config : String

-- `canonical` decodes a text and encodes the value again, `marshal` encodes a manifest, `hash_text`
-- and `hash_bytes` are SHA-256 in hexadecimal, `prefix_16` takes sixteen bytes of a text.
pub record Codec : Type 0 where
  pub canonical : String → Option String
  pub marshal : BuildManifest → String
  pub hash_text : String → String
  pub hash_bytes : List ℕ → String
  pub prefix_16 : String → String
  pub random : ℕ → String

unfoldable pub normalize_snapshot : Codec → String → Option String
unfolding is_blank
normalize_snapshot c raw = if is_blank raw then some "{}" else c.canonical raw

unfoldable pub valid_delivery_check : String → String → Bool
valid_delivery_check kind status =
    (str_eq kind "dependency"
      || str_eq kind "conflict"
      || str_eq kind "missing_file"
      || str_eq kind "content"
      || str_eq kind "version"
      || str_eq kind "quest")
    && (str_eq status "passed" || str_eq status "warning" || str_eq status "blocked")

pub record PackVersionInputRecord : Type 0 where
  pub id : String
  pub pack_version_id : String
  pub kind : String
  pub source_id : String
  pub input_hash : String
  pub payload : String
  pub created_at : ℕ

pub record DeliveryCheckRecord : Type 0 where
  pub id : String
  pub pack_id : String
  pub pack_version_id : String
  pub kind : String
  pub status : String
  pub detail : String
  pub input_fingerprint : String
  pub run_id : String
  pub checked_at : ℕ

abbrev pub fingerprint_of : Codec → NormalizedBuildFile → FileFingerprint
fingerprint_of c f = record { path = f.path; hash = c.hash_bytes f.bytes; size = length f.bytes }

abbrev pub input_row : Codec → ℕ → ℕ → String → String → PackVersionInputRecord
input_row c n now kind payload = record {
  id = text_append "input-" (c.random n);
  pack_version_id = "";
  kind = kind;
  source_id = "snapshot";
  input_hash = c.hash_text payload;
  payload = payload;
  created_at = now;
}

abbrev pub check_row :
    Codec → ℕ → ℕ → BuildInput → String → DeliveryCheck → String → DeliveryCheckRecord
check_row c n now x fp k detail = record {
  id = text_append "delivery-" (c.random n);
  pack_id = x.pack_id;
  pack_version_id = x.pack_version_id;
  kind = k.kind;
  status = k.status;
  detail = detail;
  input_fingerprint = fp;
  run_id = c.prefix_16 fp;
  checked_at = now;
}

-- The last loop of `buildManifest`: the rows of the delivery checks.
unfoldable pub check_rows :
    Codec → ℕ → ℕ → BuildInput → String → List DeliveryCheck → Option (List DeliveryCheckRecord)
unfolding valid_delivery_check normalize_snapshot
check_rows c n now x fp [] = some []
check_rows c n now x fp (k ∷ ks) =
    let rest = check_rows c (suc n) now x fp ks in
    if not (valid_delivery_check k.kind k.status) then none else do
      detail ← normalize_snapshot c k.detail
      rows ← rest
      some (check_row c n now x fp k detail ∷ rows)

pub record Built : Type 0 where
  pub files : List NormalizedBuildFile
  pub fingerprint : String
  pub inputs : List PackVersionInputRecord
  pub checks : List DeliveryCheckRecord

-- The four snapshots in canonical form.
pub record Snapshots : Type 0 where
  pub lock : String
  pub content : String
  pub quest : String
  pub config : String

unfoldable pub snapshots_of : Codec → BuildInput → Option Snapshots
unfolding normalize_snapshot
snapshots_of c x = do
  lock ← normalize_snapshot c x.lock_snapshot
  content ← normalize_snapshot c x.content_snapshot
  quest ← normalize_snapshot c x.quest_snapshot
  config ← normalize_snapshot c x.build_config
  some (record { lock = lock; content = content; quest = quest; config = config })

unfoldable pub manifest_of : Codec → List NormalizedBuildFile → Snapshots → BuildManifest
manifest_of c fs s = record {
  files = map (fingerprint_of c) fs;
  lock = s.lock;
  content = s.content;
  quest = s.quest;
  config = s.config;
}

unfoldable pub input_rows : Codec → ℕ → Snapshots → List PackVersionInputRecord
input_rows c now s =
    input_row c 0 now "lock" s.lock
    ∷ input_row c 1 now "content" s.content
    ∷ input_row c 2 now "quest" s.quest
    ∷ input_row c 3 now "build_config" s.config
    ∷ []

unfoldable pub build_manifest : Codec → BuildInput → ℕ → Option Built
unfolding build_files snapshots_of manifest_of input_rows check_rows
build_manifest c x now = do
  files ← build_files x.files
  s ← snapshots_of c x
  let fp = c.hash_text (c.marshal (manifest_of c files s))
  checks ← check_rows c 4 now x fp x.checks
  some (record { files = files; fingerprint = fp; inputs = input_rows c now s; checks = checks })
