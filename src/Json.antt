-- ===== src/Json.antt =====
-- JSON values as Python holds them: what `json.loads` returns and `json.dumps` takes, and the
-- operations that the program applies to such a value of unknown shape, with the exceptions that
-- they raise. `F` is the type of floats.
pub mod Reading
use tenantvault_zero_trust_r.Base.{
  String, Bool, true, false, Option, none, some, List, [], ◌∷◌, text_eq, if◌then◌else◌,
}
use tenantvault_zero_trust_r.Base.Int.{ℤ}
use tenantvault_zero_trust_r.Base.Text.{chars}
use tenantvault_zero_trust_r.Result.{Result, ok, err, type_error, key_error, attribute_error, ◌>>=◌}

mutual
  pub data Json (F : Type 0) : Type 0 where
    null : Json F
    bool : Bool → Json F
    int : ℤ → Json F
    float : F → Json F
    str : String → Json F
    arr : Items F → Json F
    obj : Fields F → Json F

  pub data Items (F : Type 0) : Type 0 where
    nil : Items F
    cons : Json F → Items F → Items F

  pub data Fields (F : Type 0) : Type 0 where
    end : Fields F
    field : String → Json F → Fields F → Fields F

module _ {F : Type 0} where
  abbrev pub items : Items F → List (Json F)
  items nil = []
  items (cons v vs) = v ∷ items vs

  -- A list of texts.
  abbrev pub texts : List String → Items F
  texts [] = nil
  texts (s ∷ ss) = cons (str s) (texts ss)

  abbrev pub keys : Fields F → List (Json F)
  keys end = []
  keys (field k v fs) = str k ∷ keys fs

  abbrev pub lookup : String → Fields F → Option (Json F)
  lookup k end = none
  lookup k (field j v fs) = if text_eq j k then some v else lookup k fs

  -- `None` or a text
  abbrev pub of_option : Option String → Json F
  of_option none = null
  of_option (some s) = str s

  -- `v.get(key)`: only a dict has the method.
  unfoldable pub get : Json F → String → Result (Option (Json F))
  get (obj fs) k = ok (lookup k fs)
  get _ k = err attribute_error

  abbrev pub or_default : Json F → Option (Json F) → Json F
  or_default d none = d
  or_default d (some v) = v

  -- `v.get(key, default)`
  unfoldable pub get_or : Json F → String → Json F → Result (Json F)
  unfolding get
  get_or v k d = do found ← get v k; ok (or_default d found)

  abbrev pub found_or : Option (Json F) → Result (Json F)
  found_or none = err key_error
  found_or (some v) = ok v

  -- `v[key]` at a text key
  unfoldable pub subscript : Json F → String → Result (Json F)
  subscript (obj fs) k = found_or (lookup k fs)
  subscript _ k = err type_error

  abbrev pub strs : List String → List (Json F)
  strs [] = []
  strs (s ∷ ss) = str s ∷ strs ss

  -- `for x in v`
  unfoldable pub iterate : Json F → Result (List (Json F))
  iterate (arr vs) = ok (items vs)
  iterate (obj fs) = ok (keys fs)
  iterate (str s) = ok (strs (chars s))
  iterate _ = err type_error

-- A member of a Python set as the program sees it: it only asks for texts.
pub data Member : Type 0 where
  text : String → Member
  other : Member

module _ {F : Type 0} where
  -- Lists and dicts are not hashable.
  unfoldable pub member : Json F → Result Member
  member (str s) = ok (text s)
  member (arr vs) = err type_error
  member (obj fs) = err type_error
  member _ = ok other

  unfoldable pub members : List (Json F) → Result (List Member)
  unfolding member
  members [] = ok []
  members (v ∷ vs) = do m ← member v; ms ← members vs; ok (m ∷ ms)

  -- `set(v)`
  unfoldable pub set_of : Json F → Result (List Member)
  unfolding iterate members
  set_of v = do vs ← iterate v; members vs

-- `s in members`
abbrev pub has : String → List Member → Bool
has s [] = false
has s (other ∷ ms) = has s ms
has s (text t ∷ ms) = if text_eq s t then true else has s ms
