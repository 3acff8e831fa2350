-- ===== src/Builds/Segments.antt =====
-- The paths of apps/server/internal/service/build.go, cut at their slashes and joined again.
use Prim.Native.String as Text
use Prim.Native.String.{◌++◌ as text_append}
use Prim.Native.String.append
use Prim.Native.Char.{Char, char, code}
use m_pack_station.Base.{
  ℕ, String, true, false, List, [], ◌∷◌, ◌≡◌, refl, ap, ◌∙◌, arith, All, Bool-cases, inl, inr, ◌==◌,
}
use m_pack_station.Content.Paths.{segments, in_front}
use m_pack_station.Builds.Archive.{lacks, join_slash}

module _ (n : ℕ) where
  abbrev pub Lacking : List String → Type 0
  Lacking ss = All (λ s. lacks n s ≡ true) ss

  pub Lacking-in_front :
      (c : Char) (ss : List String) → (code c == n) ≡ false → Lacking ss → Lacking (in_front c ss)
  unfolding lacks
  Lacking-in_front c [] h hs = (rw h refl, tt)
  Lacking-in_front c (s ∷ ss) h hs = (rw h (hs.0), hs.1)

  pub lacks-append :
      (s t : String) → lacks n s ≡ true → lacks n t ≡ true → lacks n (text_append s t) ≡ true
  unfolding lacks
  lacks-append Text.[] t h k = rw (append.nil t) k
  lacks-append (Text.◌∷◌ c s) t h k = elim (Bool-cases (code c == n)) [
    | inl e ↦ absurd (ground arith)
    | inr e ↦ rw (append.cons c s t, e) (lacks-append s t (rw e at h) k)
  ]

  -- A character that a text lacks is in none of its segments.
  pub segments-Lacking : (s : String) → lacks n s ≡ true → Lacking (segments s)
  unfolding segments lacks
  segments-Lacking Text.[] h = (refl, tt)
  segments-Lacking (Text.◌∷◌ c s) h = elim (Bool-cases (code c == n)) [
    | inl e ↦ absurd (ground arith)
    | inr e ↦
        let ih = segments-Lacking s (rw e at h) in
        elim (Bool-cases (code c == 47)) [
          | inl k ↦ rw k (refl, ih)
          | inr k ↦ rw k (Lacking-in_front c (segments s) e ih)
        ]
  ]

-- No segment holds a slash.
pub segments-unslashed : (s : String) → Lacking 47 (segments s)
unfolding segments lacks
segments-unslashed Text.[] = (refl, tt)
segments-unslashed (Text.◌∷◌ c s) = elim (Bool-cases (code c == 47)) [
  | inl k ↦ rw k (refl, segments-unslashed s)
  | inr k ↦ rw k (Lacking-in_front 47 c (segments s) k (segments-unslashed s))
]

-- A text with no slash is one segment, also in front of a slash.
pub segments-one : (s : String) → lacks 47 s ≡ true → segments s ≡ (s ∷ [])
unfolding segments lacks
segments-one Text.[] h = refl
segments-one (Text.◌∷◌ c s) h = elim (Bool-cases (code c == 47)) [
  | inl k ↦ absurd (ground arith)
  | inr k ↦ rw (k, segments-one s (rw k at h)) refl
]

pub slash_first : (t : String) → text_append "/" t ≡ Text.◌∷◌ (char 47 tt) t
slash_first t = append.cons (char 47 tt) "" t ∙ ap (λ r. Text.◌∷◌ (char 47 tt) r) (append.nil t)

pub segments-first :
    (s t : String)
    → lacks 47 s ≡ true
    → segments (text_append s (text_append "/" t)) ≡ (s ∷ segments t)
unfolding segments lacks
segments-first Text.[] t h = rw (append.nil (text_append "/" t), slash_first t) refl
segments-first (Text.◌∷◌ c s) t h = elim (Bool-cases (code c == 47)) [
  | inl k ↦ absurd (ground arith)
  | inr k ↦ rw (append.cons c s (text_append "/" t), k, segments-first s t (rw k at h)) refl
]

-- What is joined is cut into the same parts.
pub segments-join_slash :
    (x : String) (xs : List String)
    → Lacking 47 (x ∷ xs)
    → segments (join_slash (x ∷ xs)) ≡ (x ∷ xs)
unfolding join_slash
segments-join_slash x [] h = segments-one x (h.0)
segments-join_slash x (y ∷ ys) h =
    segments-first x (join_slash (y ∷ ys)) (h.0) ∙ ap (λ r. x ∷ r) (segments-join_slash y ys (h.1))

pub lacks-join_slash :
    (n : ℕ) (xs : List String) → (47 == n) ≡ false → Lacking n xs → lacks n (join_slash xs) ≡ true
unfolding join_slash lacks
lacks-join_slash n [] e h = refl
lacks-join_slash n (x ∷ []) e h = h.0
lacks-join_slash n (x ∷ y ∷ ys) e h =
    lacks-append n x (text_append "/" (join_slash (y ∷ ys))) (h.0)
      (lacks-append n "/" (join_slash (y ∷ ys)) (rw e refl) (lacks-join_slash n (y ∷ ys) e (h.1)))
