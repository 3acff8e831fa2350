-- ===== src/Publishing/Words.antt =====
-- The texts that apps/server/internal/service/publish.go trims and folds: `strings.TrimSpace` and
-- `strings.ToLower`, by the codes of the characters.
use Prim.Native.String.{String, [], ◌∷◌}
use Prim.Native.Char.{code}
use m_pack_station.Base.{ℕ, ◌+◌, Bool, true, false, ◌&&◌, ◌||◌, if◌then◌else◌, leb, ◌==◌}

-- unicode.IsSpace
abbrev pub is_space : ℕ → Bool
is_space n =
    leb 9 n && leb n 13
    || n == 32
    || n == 133
    || n == 160
    || n == 5760
    || leb 8192 n && leb n 8202
    || n == 8232
    || n == 8233
    || n == 8239
    || n == 8287
    || n == 12288

-- strings.TrimSpace(s) == ""
unfoldable pub is_blank : String → Bool
is_blank [] = true
is_blank (c ∷ s) = is_space (code c) && is_blank s

-- The lower case of a character, where it is an ASCII letter: besides the capitals, the dotted
-- capital I and the Kelvin sign have one. No other character's lower case is an ASCII letter.
abbrev pub lower_code : ℕ → ℕ
lower_code n =
    if leb 65 n && leb n 90 then n + 32 else if n == 304 then 105 else if n == 8490 then 107 else n

-- The first text in lower case is the second, up to space at its end.
unfoldable pub folds_to : String → String → Bool
unfolding is_blank
folds_to s [] = is_blank s
folds_to [] (d ∷ t) = false
folds_to (c ∷ s) (d ∷ t) = lower_code (code c) == code d && folds_to s t

-- strings.ToLower(strings.TrimSpace(s)) == t, for a word `t` of ASCII letters in lower case.
unfoldable pub reads_as : String → String → Bool
unfolding folds_to
reads_as [] t = folds_to [] t
reads_as (c ∷ s) t =
    let rest = reads_as s t in if is_space (code c) then rest else folds_to (c ∷ s) t
