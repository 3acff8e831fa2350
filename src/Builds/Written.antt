-- ===== src/Builds/Written.antt =====
-- The files of a build in apps/server/internal/service/build.go, from the accepted input to the
-- archive that is checked.
use m_pack_station.Base.{
  String, true, false, List, [], ◌∷◌, ◌≡◌, refl, ap, ◌∙◌, arith, All, Bool-cases, inl, inr, ◌||◌,
  some, Option-cases, str_eq, str_eq_comm, length, ltb, map, insert_by, sort_by, All-sort_by,
  All-map,
}
use m_pack_station.Quests.Pigeons.{mem, AllDistinct}
use m_pack_station.Builds.Archive.{safe_archive_path}
use m_pack_station.Builds.Safe.{IsSafe, safe_archive_path-IsSafe}
use m_pack_station.Builds.Manifest.{
  BuildFile, BuildInput, NormalizedBuildFile, max_content, files_accepted, validate_build_input,
  normalized_files, build_files, path_before,
}

abbrev pub path_of : NormalizedBuildFile → String
path_of f = f.path

-- A file whose path is safe and whose size is within the bound.
abbrev pub Fits : NormalizedBuildFile → Type 0
Fits f = IsSafe f.path × (ltb max_content (length f.bytes) ≡ false)

-- What the loop of the validation leaves for the files of a build.
record Accepted (fs : List BuildFile) (seen : List String) : Type 0 where
  files : List NormalizedBuildFile
  normal : normalized_files fs ≡ some files
  fit : All Fits files
  distinct : AllDistinct (map path_of files)
  fresh : All (λ f. mem f.path seen ≡ false) files

fresh-head :
    (p : String) (seen : List String) (gs : List NormalizedBuildFile)
    → All (λ f. mem f.path (p ∷ seen) ≡ false) gs
    → mem p (map path_of gs) ≡ false
fresh-head p seen [] h = refl
fresh-head p seen (g ∷ gs) h =
    let k : mem g.path (p ∷ seen) ≡ false = h.0 in
    let ih = fresh-head p seen gs (h.1) in let c = str_eq_comm p g.path in ground arith

fresh-tail :
    (p : String) (seen : List String) (gs : List NormalizedBuildFile)
    → All (λ f. mem f.path (p ∷ seen) ≡ false) gs
    → All (λ f. mem f.path seen ≡ false) gs
fresh-tail p seen gs h =
    All-map (λ (f : NormalizedBuildFile). mem f.path (p ∷ seen) ≡ false)
      (λ (f : NormalizedBuildFile). mem f.path seen ≡ false) gs (λ f k. ground arith) h

files_accepted-Accepted :
    (fs : List BuildFile) (seen : List String) → files_accepted fs seen ≡ true → Accepted fs seen
unfolding files_accepted normalized_files
files_accepted-Accepted [] seen h = record {
  files = [];
  normal = refl;
  fit = tt;
  distinct = tt;
  fresh = tt;
}
files_accepted-Accepted (f ∷ fs) seen h = elim (Option-cases (safe_archive_path f.path)) [
  | inl e ↦ absurd (ground arith)
  | inr (p, e) ↦
      let r = files_accepted-Accepted fs (p ∷ seen) (ground arith) in
      record {
        files = record { path = p; bytes = f.content } ∷ r.files;
        normal = rw (e, r.normal) refl;
        fit = ((safe_archive_path-IsSafe f.path e, ground arith), r.fit);
        distinct = (fresh-head p seen r.files r.fresh, r.distinct);
        fresh = (ground arith, fresh-tail p seen r.files r.fresh);
      }
]

-- Sorting brings in no path and takes none away.
mem-insert_by :
    (x : String) (g : NormalizedBuildFile) (gs : List NormalizedBuildFile)
    → mem x (map path_of (insert_by path_before g gs)) ≡ (str_eq g.path x || mem x (map path_of gs))
unfolding insert_by
mem-insert_by x g [] = refl
mem-insert_by x g (h ∷ hs) = elim (Bool-cases (path_before h g)) [
  | inl e ↦ let ih = mem-insert_by x g hs in rw e (ground arith)
  | inr e ↦ rw e refl
]

mem-sort_by :
    (x : String) (gs : List NormalizedBuildFile)
    → mem x (map path_of (sort_by path_before gs)) ≡ mem x (map path_of gs)
unfolding sort_by
mem-sort_by x [] = refl
mem-sort_by x (g ∷ gs) =
    mem-insert_by x g (sort_by path_before gs) ∙ ap (λ b. str_eq g.path x || b) (mem-sort_by x gs)

insert_by-AllDistinct :
    (g : NormalizedBuildFile) (gs : List NormalizedBuildFile)
    → mem g.path (map path_of gs) ≡ false
    → AllDistinct (map path_of gs)
    → AllDistinct (map path_of (insert_by path_before g gs))
unfolding insert_by
insert_by-AllDistinct g [] h k = (refl, tt)
insert_by-AllDistinct g (x ∷ xs) h k = elim (Bool-cases (path_before x g)) [
  | inl e ↦
      let here = mem-insert_by x.path g xs in
      let c = str_eq_comm x.path g.path in
      rw e (here ∙ (ground (arith, k.0)), insert_by-AllDistinct g xs (ground arith) (k.1))
  | inr e ↦ rw e (h, k)
]

sort_by-AllDistinct :
    (gs : List NormalizedBuildFile)
    → AllDistinct (map path_of gs)
    → AllDistinct (map path_of (sort_by path_before gs))
unfolding sort_by
sort_by-AllDistinct [] h = tt
sort_by-AllDistinct (g ∷ gs) h =
    insert_by-AllDistinct g (sort_by path_before gs) (mem-sort_by g.path gs ∙ h.0)
      (sort_by-AllDistinct gs (h.1))

-- The files of an accepted input get paths that are safe, and no two the same, and none of them is
-- larger than 512 MiB.
pub validate_build_input-Fits :
    (x : BuildInput)
    → validate_build_input x ≡ true
    → (gs : List NormalizedBuildFile) × (build_files x.files ≡ some gs)
      × All Fits gs
      × AllDistinct (map path_of gs)
unfolding validate_build_input build_files
validate_build_input-Fits x h =
    let r = files_accepted-Accepted x.files [] (ground arith) in
    (
      sort_by path_before r.files,
      rw (r.normal) refl,
      All-sort_by Fits path_before r.files r.fit,
      sort_by-AllDistinct r.files r.distinct,
    )
