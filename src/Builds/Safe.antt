-- ===== src/Builds/Safe.antt =====
-- What `safeArchivePath` of apps/server/internal/service/build.go accepts.
use Prim.Native.String as Text
use Prim.Native.String.{◌++◌ as text_append}
use Prim.Native.String.append
use Prim.Native.Char.{char, code}
use m_pack_station.Base.{
  ℕ, String, Bool, true, false, List, [], ◌∷◌, ◌++◌, ◌≡◌, refl, sym, subst, arith, All, Bool-cases,
  inl, inr, not, ◌==◌, ◌||◌, some, ◌⊎◌, str_eq, All-append, str_eq→eq,
}
use m_pack_station.Content.Paths.{segments}
use m_pack_station.Builds.Archive.{
  lacks, join_slash, to_slashes, clean_part, clean_parts, drop_last, popped, climbs, is_refused,
  safe_archive_path, path_clean_slash,
}
use m_pack_station.Builds.Segments.{
  Lacking, segments-Lacking, segments-unslashed, segments-join_slash, lacks-join_slash,
  lacks-append, slash_first,
}

-- A segment that names an entry of the directory it stands in.
abbrev pub is_plain : String → Bool
is_plain s = not (str_eq s "" || str_eq s "." || str_eq s "..")

module _ {κ} (P : String → Type κ) where
  drop_last-All : (xs : List String) → All P xs → All P (drop_last xs)
  drop_last-All [] h = tt
  drop_last-All (x ∷ []) h = tt
  drop_last-All (x ∷ y ∷ ys) h = (h.0, drop_last-All (y ∷ ys) (h.1))

module _ {κ} (P : String → Type κ) (up : P "..") where
  popped-All : (out : List String) → All P out → All P (popped out)
  popped-All [] h = (up, tt)
  popped-All (x ∷ xs) h = drop_last-All P (x ∷ xs) h

  clean_part-All : (p : String) (out : List String) → P p → All P out → All P (clean_part p out)
  unfolding clean_part
  clean_part-All p out h hs = elim (Bool-cases (str_eq p "" || str_eq p ".")) [
    | inl e ↦ rw e hs
    | inr e ↦ elim (Bool-cases (str_eq p "..")) [
      | inl k ↦ rw (e, k) (popped-All out hs)
      | inr k ↦ rw (e, k) (All-append P out (p ∷ []) hs (h, tt))
    ]
  ]

  clean_parts-All : (ps out : List String) → All P ps → All P out → All P (clean_parts ps out)
  unfolding clean_parts
  clean_parts-All [] out h hs = hs
  clean_parts-All (p ∷ ps) out h hs =
      clean_parts-All ps (clean_part p out) (h.1) (clean_part-All p out (h.0) hs)

-- All parts are plain, but the first may climb.
abbrev Climbing : List String → Type 0
Climbing [] = Unit {0}
Climbing (x ∷ xs) = ((str_eq x ".." ≡ true) ⊎ (is_plain x ≡ true)) × All (λ s. is_plain s ≡ true) xs

drop_last-Climbing : (xs : List String) → Climbing xs → Climbing (drop_last xs)
drop_last-Climbing [] h = tt
drop_last-Climbing (x ∷ []) h = tt
drop_last-Climbing (x ∷ y ∷ ys) h = (h.0, drop_last-All (λ s. is_plain s ≡ true) (y ∷ ys) (h.1))

popped-Climbing : (out : List String) → Climbing out → Climbing (popped out)
popped-Climbing [] h = (inl refl, tt)
popped-Climbing (x ∷ xs) h = drop_last-Climbing (x ∷ xs) h

append-Climbing :
    (p : String) (out : List String) → is_plain p ≡ true → Climbing out → Climbing (out ++ (p ∷ []))
append-Climbing p [] h hs = (inr h, tt)
append-Climbing p (x ∷ xs) h hs =
    (hs.0, All-append (λ s. is_plain s ≡ true) xs (p ∷ []) (hs.1) (h, tt))

clean_part-Climbing : (p : String) (out : List String) → Climbing out → Climbing (clean_part p out)
unfolding clean_part
clean_part-Climbing p out hs = elim (Bool-cases (str_eq p "" || str_eq p ".")) [
  | inl e ↦ rw e hs
  | inr e ↦ elim (Bool-cases (str_eq p "..")) [
    | inl k ↦ rw (e, k) (popped-Climbing out hs)
    | inr k ↦ rw (e, k) (append-Climbing p out (ground arith) hs)
  ]
]

clean_parts-Climbing : (ps out : List String) → Climbing out → Climbing (clean_parts ps out)
unfolding clean_parts
clean_parts-Climbing [] out hs = hs
clean_parts-Climbing (p ∷ ps) out hs =
    clean_parts-Climbing ps (clean_part p out) (clean_part-Climbing p out hs)

dots_first : (t : String) → climbs (text_append ".." (text_append "/" t)) ≡ true
dots_first t =
    rw
      (
        slash_first t,
        append.cons (char 46 tt) "." (Text.◌∷◌ (char 47 tt) t),
        append.cons (char 46 tt) "" (Text.◌∷◌ (char 47 tt) t),
        append.nil (Text.◌∷◌ (char 47 tt) t),
      )
      refl

-- What climbs is refused, so that an accepted path is plain throughout.
Climbing-accepted :
    (out : List String)
    → Climbing out
    → is_refused (join_slash out) ≡ false
    → All (λ s. is_plain s ≡ true) out
unfolding is_refused join_slash
Climbing-accepted [] h k = tt
Climbing-accepted (x ∷ []) (inr h, hs) k = (h, tt)
Climbing-accepted (x ∷ []) (inl h, hs) k = absurd (ground arith)
Climbing-accepted (x ∷ y ∷ ys) (inr h, hs) k = (h, hs)
Climbing-accepted (x ∷ y ∷ ys) (inl h, hs) k =
    let v = text_append x (text_append "/" (join_slash (y ∷ ys))) in
    let c : climbs v ≡ true =
      subst (λ z. climbs (text_append z (text_append "/" (join_slash (y ∷ ys)))) ≡ true)
        (sym (str_eq→eq x ".." h)) (dots_first (join_slash (y ∷ ys))) in
    absurd (ground arith)

to_slashes-lacks :
    (n : ℕ) (s : String) → (47 == n) ≡ false → lacks n s ≡ true → lacks n (to_slashes s) ≡ true
unfolding lacks to_slashes
to_slashes-lacks n Text.[] e h = refl
to_slashes-lacks n (Text.◌∷◌ c s) e h = elim (Bool-cases (code c == 92)) [
  | inl k ↦
      rw k (lacks-append n "/" (to_slashes s) (rw e refl) (to_slashes-lacks n s e (ground arith)))
  | inr k ↦ let ih = to_slashes-lacks n s e (ground arith) in rw k (ground arith)
]

-- No backslash is left.
to_slashes-lacks_back : (s : String) → lacks 92 (to_slashes s) ≡ true
unfolding lacks to_slashes
to_slashes-lacks_back Text.[] = refl
to_slashes-lacks_back (Text.◌∷◌ c s) = elim (Bool-cases (code c == 92)) [
  | inl k ↦ rw k (lacks-append 92 "/" (to_slashes s) refl (to_slashes-lacks_back s))
  | inr k ↦ rw (k, k, to_slashes-lacks_back s) refl
]

clean-lacks :
    (n : ℕ) (v : String)
    → (47 == n) ≡ false
    → lacks n ".." ≡ true
    → lacks n v ≡ true
    → lacks n (path_clean_slash v) ≡ true
unfolding path_clean_slash
clean-lacks n v e d h =
    lacks-join_slash n (clean_parts (segments v) []) e
      (clean_parts-All (λ s. lacks n s ≡ true) d (segments v) [] (segments-Lacking n v h) tt)

joined-plain :
    (out : List String)
    → Lacking 47 out
    → is_refused (join_slash out) ≡ false
    → All (λ s. is_plain s ≡ true) out
    → All (λ s. is_plain s ≡ true) (segments (join_slash out))
unfolding is_refused join_slash
joined-plain [] l k h = absurd (cc)
joined-plain (x ∷ xs) l k h =
    subst (All (λ s. is_plain s ≡ true)) (sym (segments-join_slash x xs l)) h

-- A cleaned path that is not refused has its parts as segments.
clean-plain :
    (v : String)
    → is_refused (path_clean_slash v) ≡ false
    → All (λ s. is_plain s ≡ true) (segments (path_clean_slash v))
unfolding path_clean_slash lacks
clean-plain v h =
    let plain =
      Climbing-accepted (clean_parts (segments v) []) (clean_parts-Climbing (segments v) [] tt) h in
    joined-plain (clean_parts (segments v) [])
      (clean_parts-All (λ s. lacks 47 s ≡ true) refl (segments v) [] (segments-unslashed v) tt) h
      plain

-- No segment is empty, "." or "..", and neither a backslash nor a NUL stands in the path.
abbrev pub IsSafe : String → Type 0
IsSafe v = All (λ s. is_plain s ≡ true) (segments v) × (lacks 92 v ≡ true) × (lacks 0 v ≡ true)

-- A path that is accepted is safe as the name of an entry: cut at its slashes, it has no segment
-- that is empty, "." or "..", and neither a backslash nor a NUL stands in it.
pub safe_archive_path-IsSafe :
    (raw : String) {v : String} → safe_archive_path raw ≡ some v → IsSafe v
unfolding safe_archive_path
safe_archive_path-IsSafe raw {v} h =
    let w = to_slashes raw in
    let bare : lacks 0 raw ≡ true = ground arith in
    let fine : is_refused (path_clean_slash w) ≡ false = ground arith in
    let same : path_clean_slash w ≡ v = ground arith in
    subst IsSafe same (
      clean-plain w fine,
      clean-lacks 92 w refl refl (to_slashes-lacks_back raw),
      clean-lacks 0 w refl refl (to_slashes-lacks 0 raw refl bare),
    )
