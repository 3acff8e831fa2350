-- ===== src/Builds/Archived.antt =====
-- The archive that apps/server/internal/service/build.go writes, and its check.
use Prim.Native.String as Text
use Prim.Native.Char.{Char, code}
use m_pack_station.Base.{
  Bool, suc, Option, Option-cases, ◌↔◌, not, str_eq→eq, ap, ◌∙◌, ℕ, String, Bool, true, false, List,
  [], ◌∷◌, ◌≡◌, refl, arith, All, Bool-cases, subst, inl, inr, some, str_eq, length, ltb, ◌==◌,
  eq_refl, map, ◌&&◌,
}
use m_pack_station.Content.Paths.{segments, in_front, last_segment}
use m_pack_station.Builds.Safe.{IsSafe, is_plain}
use m_pack_station.Builds.Manifest.{
  BuildInput, NormalizedBuildFile, validate_build_input, build_files, max_content,
}
use m_pack_station.Builds.Written.{Fits, validate_build_input-Fits}
use m_pack_station.Builds.Zip.{
  ZipEntry, ends_in_slash, write_deterministic_zip, bytes_eq, entries_match, verify_zip,
  fixed_header, entry_matches,
}

-- Several segments, of which the last is empty.
abbrev trailing : List String → Bool
trailing [] = false
trailing (s ∷ []) = false
trailing (s ∷ t ∷ ss) = str_eq (last_segment (t ∷ ss)) ""

trailing-in_front :
    (c : Char) (ss : List String) → trailing ss ≡ true → trailing (in_front c ss) ≡ true
trailing-in_front c [] h = absurd (cc)
trailing-in_front c (s ∷ []) h = absurd (cc)
trailing-in_front c (s ∷ t ∷ ss) h = h

trailing_cons : (ss : List String) → trailing ss ≡ true → trailing ("" ∷ ss) ≡ true
trailing_cons [] h = absurd (cc)
trailing_cons (s ∷ []) h = absurd (cc)
trailing_cons (s ∷ t ∷ ss) h = h

ends_in_slash-trailing : (v : String) → ends_in_slash v ≡ true → trailing (segments v) ≡ true
unfolding segments
ends_in_slash-trailing Text.[] h = absurd (cc)
ends_in_slash-trailing (Text.◌∷◌ c Text.[]) h = rw h refl
ends_in_slash-trailing (Text.◌∷◌ c (Text.◌∷◌ d s)) h =
    let ih = ends_in_slash-trailing (Text.◌∷◌ d s) h in
    elim (Bool-cases (code c == 47)) [
      | inl e ↦ rw e (trailing_cons (segments (Text.◌∷◌ d s)) ih)
      | inr e ↦ rw e (trailing-in_front c (segments (Text.◌∷◌ d s)) ih)
    ]

plain-last :
    (s : String) (ss : List String)
    → All (λ s. is_plain s ≡ true) (s ∷ ss)
    → str_eq (last_segment (s ∷ ss)) "" ≡ false
plain-last s [] h = let p = h.0 in ground arith
plain-last s (t ∷ ss) h = plain-last t ss (h.1)

plain-untrailing : (ss : List String) → All (λ s. is_plain s ≡ true) ss → trailing ss ≡ false
plain-untrailing [] h = refl
plain-untrailing (s ∷ []) h = refl
plain-untrailing (s ∷ t ∷ ss) h = plain-last t ss (h.1)

-- A safe path names no directory.
IsSafe-no_directory : (v : String) → IsSafe v → ends_in_slash v ≡ false
IsSafe-no_directory v h = elim (Bool-cases (ends_in_slash v)) [
  | inl e ↦
      let t = ends_in_slash-trailing v e in
      let u = plain-untrailing (segments v) (h.0) in absurd (cc)
  | inr e ↦ e
]

bytes_eq_self : (xs : List ℕ) → bytes_eq xs xs ≡ true
bytes_eq_self [] = refl
bytes_eq_self (x ∷ xs) = let ih = bytes_eq_self xs in ground arith

entry_of : NormalizedBuildFile → ZipEntry
entry_of f = record {
  header = fixed_header;
  name = f.path;
  is_symlink = false;
  body = some f.bytes;
}

-- What an archive lists: the entries' names, whether they are symbolic links, and their bytes.
abbrev pub listed : ZipEntry → String × Bool × Option (List ℕ)
listed e = (e.name, e.is_symlink, e.body)

listing_of : NormalizedBuildFile → String × Bool × Option (List ℕ)
listing_of f = (f.path, false, some f.bytes)

listed-entries : (gs : List NormalizedBuildFile) → map listed (map entry_of gs) ≡ map listing_of gs
unfolding entry_of listing_of
listed-entries [] = refl
listed-entries (g ∷ gs) = ap (λ ls. (g.path, false, some g.bytes) ∷ ls) (listed-entries gs)

entries-fixed :
    (gs : List NormalizedBuildFile) → All (λ e. e.header ≡ fixed_header) (map entry_of gs)
unfolding entry_of
entries-fixed [] = tt
entries-fixed (g ∷ gs) = (refl, entries-fixed gs)

abbrev Named : (String → ℕ) → NormalizedBuildFile → Type 0
Named bytes_of f = ltb 65535 (bytes_of f.path) ≡ false

write_deterministic_zip-Fits :
    (bytes_of : String → ℕ) (gs : List NormalizedBuildFile)
    → All Fits gs
    → All (Named bytes_of) gs
    → write_deterministic_zip bytes_of gs ≡ some (map entry_of gs)
unfolding write_deterministic_zip entry_of
write_deterministic_zip-Fits bytes_of [] h k = refl
write_deterministic_zip-Fits bytes_of (g ∷ gs) h k =
    rw
      (
        k.0,
        IsSafe-no_directory g.path ((h.0).0),
        write_deterministic_zip-Fits bytes_of gs (h.1) (k.1),
      )
      refl

entries-regular :
    (gs : List NormalizedBuildFile) → All (λ e. e.is_symlink ≡ false) (map entry_of gs)
unfolding entry_of
entries-regular [] = tt
entries-regular (g ∷ gs) = (refl, entries-regular gs)

build_files-Fits :
    (x : BuildInput) {gs : List NormalizedBuildFile}
    → validate_build_input x ≡ true
    → build_files x.files ≡ some gs
    → All Fits gs
build_files-Fits x {gs} h b =
    let (fs, e, fits, distinct) = validate_build_input-Fits x h in
    let same : fs ≡ gs = cc in subst (All Fits) same fits

bytes_eq→eq : (xs ys : List ℕ) → bytes_eq xs ys ≡ true → xs ≡ ys
bytes_eq→eq [] [] h = refl
bytes_eq→eq [] (y ∷ ys) h = absurd (cc)
bytes_eq→eq (x ∷ xs) [] h = absurd (cc)
bytes_eq→eq (x ∷ xs) (y ∷ ys) h = elim (Bool-cases (x == y)) [
  | inl e ↦ let same : x ≡ y = ground arith in let rest = bytes_eq→eq xs ys (rw e at h) in cc
  | inr e ↦ absurd (ground arith)
]

three_true : (a b c : Bool) → (a && not b && c) ≡ true → (a ≡ true) × (b ≡ false) × (c ≡ true)
three_true a b c h = ground arith

-- No more than 512 MiB are read of the entry.
abbrev pub IsWithin : ZipEntry → Type 0
IsWithin e = (bs : List ℕ) → e.body ≡ some bs → ltb max_content (length bs) ≡ false

entry_matches-listed :
    (e : ZipEntry) (g : NormalizedBuildFile)
    → IsWithin e
    → entry_matches e g ≡ true
    → listed e ≡ listing_of g
unfolding entry_matches listing_of
entry_matches-listed e g w h = elim (Option-cases e.body) [
  | inl none_read ↦ absurd (ground arith)
  | inr (bs, read) ↦
      let short = w bs read in
      let m : (str_eq e.name g.path && not e.is_symlink && bytes_eq bs g.bytes) ≡ true =
        (rw (read, short) at h) in
      let (named, regular, equal) =
        three_true (str_eq e.name g.path) e.is_symlink (bytes_eq bs g.bytes) m in
      let name = str_eq→eq e.name g.path named in
      let body : e.body ≡ some g.bytes = read ∙ ap some (bytes_eq→eq bs g.bytes equal) in
      λ i. (name i, regular i, body i)
]

entries_match-listed :
    (es : List ZipEntry) (gs : List NormalizedBuildFile)
    → All IsWithin es
    → length es ≡ length gs
    → entries_match es gs ≡ true
    → map listed es ≡ map listing_of gs
unfolding entries_match
entries_match-listed [] [] w n h = refl
entries_match-listed [] (g ∷ gs) w n h = absurd (omega arith)
entries_match-listed (e ∷ es) [] w n h = absurd (omega arith)
entries_match-listed (e ∷ es) (g ∷ gs) w n h =
    let here = entry_matches-listed e g (w.0) (ground arith) in
    let rest = entries_match-listed es gs (w.1) (omega arith) (ground arith) in cc

listed-entry_matches :
    (e : ZipEntry) (g : NormalizedBuildFile)
    → Fits g
    → listed e ≡ listing_of g
    → entry_matches e g ≡ true
unfolding entry_matches listing_of
listed-entry_matches e g f h =
    let name : e.name ≡ g.path = ap (λ l. l.0) h in
    let regular : e.is_symlink ≡ false = ap (λ l. l.1) h in
    let body : e.body ≡ some g.bytes = ap (λ l. l.2) h in
    rw (body, name, regular, f.1, eq_refl g.path, bytes_eq_self g.bytes) refl

listed-entries_match :
    (es : List ZipEntry) (gs : List NormalizedBuildFile)
    → All Fits gs
    → map listed es ≡ map listing_of gs
    → (length es ≡ length gs) × (entries_match es gs ≡ true)
unfolding entries_match
listed-entries_match [] [] f h = (refl, refl)
listed-entries_match [] (g ∷ gs) f h = absurd (cc)
listed-entries_match (e ∷ es) [] f h = absurd (cc)
listed-entries_match (e ∷ es) (g ∷ gs) f h =
    let here = listed-entry_matches e g (f.0) (cc) in
    let (n, rest) = listed-entries_match es gs (f.1) (cc) in (ap suc n, rw (here, rest) refl)

-- `verifyZip` on an archive that opens.
verify_zip-listed :
    (es : List ZipEntry) (gs : List NormalizedBuildFile)
    → All Fits gs
    → All IsWithin es
    → (verify_zip (some es) gs ≡ true) ↔ (map listed es ≡ map listing_of gs)
unfolding verify_zip
verify_zip-listed es gs f w = (
  λ v. entries_match-listed es gs w (ground arith) (ground arith),
  λ l. let (n, m) = listed-entries_match es gs f l in ground arith,
)

-- The archive of an accepted input whose files have names of at most 65535 bytes is written, and every
-- entry has the same method and date and no extra fields. Of all archives with no entry of more than
-- 512 MiB those pass the check that have as many entries, in the same order, with the same names, no
-- symbolic links, and the same bytes, and no others.
pub verify_zip-write_deterministic_zip :
    (bytes_of : String → ℕ) (x : BuildInput) {gs : List NormalizedBuildFile}
    → validate_build_input x ≡ true
    → build_files x.files ≡ some gs
    → All (λ g. ltb 65535 (bytes_of g.path) ≡ false) gs
    → (es : List ZipEntry) × (write_deterministic_zip bytes_of gs ≡ some es)
      × All (λ e. e.header ≡ fixed_header) es
      × All (λ e. e.is_symlink ≡ false) es
      × ((found : List ZipEntry)
          → All IsWithin found
          → (verify_zip (some found) gs ≡ true) ↔ (map listed found ≡ map listed es))
verify_zip-write_deterministic_zip bytes_of x {gs} h b k =
    let fits : All Fits gs = build_files-Fits x h b in
    (
      map entry_of gs,
      write_deterministic_zip-Fits bytes_of gs fits k,
      entries-fixed gs,
      entries-regular gs,
      λ found w. rw (listed-entries gs) (verify_zip-listed found gs fits w),
    )
