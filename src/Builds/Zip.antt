-- ===== src/Builds/Zip.antt =====
-- apps/server/internal/service/build.go: the archive that is written, and its check. archive/zip
-- stands as the list of the archive's entries.
use Prim.Native.String as Text
use Prim.Native.String.{len}
use Prim.Native.Char.{code}
use m_pack_station.Base.{
  ◌>>=◌, ℕ, String, Bool, true, false, List, [], ◌∷◌, Option, none, some, str_eq, ltb, length,
  if◌then◌else◌, ◌&&◌, ◌||◌, not, ◌==◌, take,
}
use m_pack_station.Builds.Manifest.{NormalizedBuildFile, max_content}

-- What zip.FileHeader has beside a name and a mode: the method, MS-DOS's date and time, and the extra
-- fields.
pub record ZipHeader : Type 0 where
  pub method : ℕ
  pub modified_date : ℕ
  pub modified_time : ℕ
  pub extra : List ℕ

-- An entry as it is read: `body` is none where opening or reading it fails.
pub record ZipEntry : Type 0 where
  pub header : ZipHeader
  pub name : String
  pub is_symlink : Bool
  pub body : Option (List ℕ)

abbrev pub ends_in_slash : String → Bool
ends_in_slash Text.[] = false
ends_in_slash (Text.◌∷◌ c Text.[]) = code c == 47
ends_in_slash (Text.◌∷◌ c (Text.◌∷◌ d s)) = ends_in_slash (Text.◌∷◌ d s)

-- zip.Deflate, and midnight of 1980-01-01: what the headers of every build have in common.
abbrev pub fixed_header : ZipHeader
fixed_header = record { method = 8; modified_date = 33; modified_time = 0; extra = [] }

-- CreateHeader and Write of zip.Writer: a name of more than 65535 bytes is refused, and a name that
-- ends in a slash is a directory, which takes no bytes.
unfoldable pub entry_written : (String → ℕ) → NormalizedBuildFile → Option ZipEntry
entry_written bytes_of f =
    if ltb 65535 (bytes_of f.path) || ends_in_slash f.path && not (length f.bytes == 0)
    then none
    else some
        (record { header = fixed_header; name = f.path; is_symlink = false; body = some f.bytes })

unfoldable pub write_deterministic_zip :
    (String → ℕ) → List NormalizedBuildFile → Option (List ZipEntry)
unfolding entry_written
write_deterministic_zip bytes_of [] = some []
write_deterministic_zip bytes_of (f ∷ fs) = do
  e ← entry_written bytes_of f
  es ← write_deterministic_zip bytes_of fs
  some (e ∷ es)

-- Equality of two strings of bytes.
abbrev pub bytes_eq : List ℕ → List ℕ → Bool
bytes_eq [] [] = true
bytes_eq (x ∷ xs) (y ∷ ys) = x == y && bytes_eq xs ys
bytes_eq _ _ = false

-- io.LimitReader lets at most 512 MiB through.
abbrev pub limited : List ℕ → List ℕ
limited xs = if ltb max_content (length xs) then take max_content xs else xs

unfoldable pub entry_matches : ZipEntry → NormalizedBuildFile → Bool
entry_matches e f = elim e.body [
  | none ↦ false
  | some body ↦ str_eq e.name f.path && not e.is_symlink && bytes_eq (limited body) f.bytes
]

-- The loop over the entries of the archive. An entry beyond the expected files would be out of range;
-- the test before the loop excludes it.
unfoldable pub entries_match : List ZipEntry → List NormalizedBuildFile → Bool
unfolding entry_matches
entries_match [] fs = true
entries_match (e ∷ es) [] = false
entries_match (e ∷ es) (f ∷ fs) = entry_matches e f && entries_match es fs

-- `verifyZip`, of an archive that may not open: as many entries as files, each with its file.
unfoldable pub verify_zip : Option (List ZipEntry) → List NormalizedBuildFile → Bool
unfolding entries_match
verify_zip none fs = false
verify_zip (some es) fs = length es == length fs && entries_match es fs
