-- ===== src/Base/Text.antt =====
-- What the program uses of Python's `str`: slicing, splitting, joining and searching, by recursion
-- over the characters.
use Prim.Native.Nat.{ℕ, zero, suc}
use Prim.Native.Char.{Char, code}
use Prim.Native.String.{String, ◌++◌ as ◌<>◌}
use mathlib.Core.Path.{◌≡◌}
use mathlib.Core.Bool.{Bool, true, false, ◌||◌, ◌&&◌}
use mathlib.Core.List.{List, [], ◌∷◌}
use tenantvault_zero_trust_r.Base.Tests.{leb, ◌==◌, if◌then◌else◌}

-- `len(s)`: the number of code points.
abbrev pub len : String → ℕ
len String.[] = 0
len (String.◌∷◌ c s) = suc (len s)

-- `s[:n]`
unfoldable pub take : ℕ → String → String
take zero s = ""
take (suc n) String.[] = ""
take (suc n) (String.◌∷◌ c s) = String.◌∷◌ c (take n s)

-- Is the first text a prefix of the second?
abbrev pub is_prefix : String → String → Bool
is_prefix String.[] t = true
is_prefix (String.◌∷◌ c s) String.[] = false
is_prefix (String.◌∷◌ c s) (String.◌∷◌ d t) = if code c == code d then is_prefix s t else false

-- `s in t`
unfoldable pub occurs_in : String → String → Bool
occurs_in s String.[] = is_prefix s ""
occurs_in s (String.◌∷◌ c t) = if is_prefix s (String.◌∷◌ c t) then true else occurs_in s t

-- `s.replace(c, by)` for one character
unfoldable pub replace : ℕ → Char → String → String
replace c by String.[] = ""
replace c by (String.◌∷◌ d s) = String.◌∷◌ (if code d == c then by else d) (replace c by s)

-- `s.split(c)` for one character: the first piece, and the others.
unfoldable pub pieces : ℕ → String → String × List String
pieces c String.[] = ("", [])
pieces c (String.◌∷◌ d s) =
    let (w, ws) = pieces c s in if code d == c then ("", w ∷ ws) else (String.◌∷◌ d w, ws)

unfoldable pub split_on : ℕ → String → List String
unfolding pieces
split_on c s = let (w, ws) = pieces c s in w ∷ ws

-- The characters at which `s.split()` splits.
unfoldable pub is_space : ℕ → Bool
is_space c =
    (leb 9 c && leb c 13)
    || (leb 28 c && leb c 32)
    || c == 133
    || c == 160
    || c == 5760
    || (leb 8192 c && leb c 8202)
    || c == 8232
    || c == 8233
    || c == 8239
    || c == 8287
    || c == 12288

-- Empty words are dropped.
abbrev pub push : String → List String → List String
push String.[] ws = ws
push w ws = w ∷ ws

unfoldable pub words : String → String × List String
words String.[] = ("", [])
words (String.◌∷◌ d s) =
    let (w, ws) = words s in if is_space (code d) then ("", push w ws) else (String.◌∷◌ d w, ws)

-- `s.split()`
unfoldable pub split : String → List String
unfolding words
split s = let (w, ws) = words s in push w ws

-- `sep.join(ws)`
abbrev pub join : String → List String → String
join sep [] = ""
join sep (w ∷ []) = w
join sep (w ∷ v ∷ ws) = w <> (sep <> join sep (v ∷ ws))

-- `s * n`
unfoldable pub replicate : ℕ → String → String
replicate zero s = ""
replicate (suc n) s = s <> replicate n s

-- `s.rstrip(c)` for one character: what is left of the tail decides.
abbrev pub strip_cons : ℕ → Char → String → String
strip_cons c d String.[] = if code d == c then "" else String.◌∷◌ d ""
strip_cons c d s = String.◌∷◌ d s

unfoldable pub rstrip : ℕ → String → String
rstrip c String.[] = ""
rstrip c (String.◌∷◌ d s) = strip_cons c d (rstrip c s)

-- No character of the text has the code `c`.
abbrev pub Free : ℕ → String → Type 0
Free c String.[] = Unit
Free c (String.◌∷◌ d s) = ((code d == c) ≡ false) × Free c s

-- The characters, as texts of one character.
abbrev pub chars : String → List String
chars String.[] = []
chars (String.◌∷◌ c s) = String.◌∷◌ c "" ∷ chars s
