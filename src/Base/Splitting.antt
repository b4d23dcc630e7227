-- ===== src/Base/Splitting.antt =====
-- Splitting a text undoes joining it.
use Prim.Native.Nat.{ℕ, zero, suc}
use Prim.Native.Char.{Char, code, char}
use Prim.Native.String.{String, ◌++◌ as ◌<>◌}
use mathlib.Core.Path.{◌≡◌, refl, ap, ◌∙◌}
use mathlib.Core.Bool.{true, false}
use mathlib.Core.List.{List, [], ◌∷◌}
use text.Mathlib.TextLemmas.{nil-append, cons-append}
use tenantvault_zero_trust_r.Base.Tests.{◌==◌}
use tenantvault_zero_trust_r.Base.Lists.{All}
use tenantvault_zero_trust_r.Base.Text.{
  pieces, split_on, words, push, split, is_space, join, replicate, rstrip, Free,
}

-- One character before a text.
pub single-append : (c : Char) (s : String) → String.◌∷◌ c "" <> s ≡ String.◌∷◌ c s
single-append c s = cons-append c "" s ∙ ap (String.◌∷◌ c) (nil-append s)

-- One piece before a separator, and the rest.
pieces-append :
    (c : ℕ) (s : String) (d : Char) (t : String)
    → Free c s
    → (code d == c) ≡ true
    → pieces c (s <> String.◌∷◌ d t) ≡ (s, (pieces c t).0 ∷ (pieces c t).1)
unfolding pieces
pieces-append c String.[] d t h e = rw (nil-append (String.◌∷◌ d t), e) refl
pieces-append c (String.◌∷◌ b s) d t h e =
    rw (cons-append b s (String.◌∷◌ d t), pieces-append c s d t h.1 e, h.0) refl

pieces-Free : (c : ℕ) (s : String) → Free c s → pieces c s ≡ (s, [])
unfolding pieces
pieces-Free c String.[] h = refl
pieces-Free c (String.◌∷◌ b s) h = rw (pieces-Free c s h.1, h.0) refl

dot-append : (s : String) → "." <> s ≡ String.◌∷◌ (char 46 tt) s
dot-append s = single-append (char 46 tt) s

-- Three pieces without dots.
pub split_on-dots :
    (x y z : String)
    → Free b'.' x
    → Free b'.' y
    → Free b'.' z
    → split_on b'.' (x <> ("." <> (y <> ("." <> z)))) ≡ x ∷ y ∷ z ∷ []
unfolding split_on
split_on-dots x y z hx hy hz =
    rw
      (
        dot-append z,
        dot-append (y <> String.◌∷◌ (char 46 tt) z),
        pieces-append b'.' x (char 46 tt) (y <> String.◌∷◌ (char 46 tt) z) hx refl,
        pieces-append b'.' y (char 46 tt) z hy refl,
        pieces-Free b'.' z hz,
      )
      refl

rstrip-replicate : (k : ℕ) → rstrip b'=' (replicate k "=") ≡ ""
unfolding rstrip replicate
rstrip-replicate zero = refl
rstrip-replicate (suc k) =
    rw (single-append (char 61 tt) (replicate k "="), rstrip-replicate k) refl

-- Padding is stripped off, and nothing else.
pub rstrip-append : (s : String) (k : ℕ) → Free b'=' s → rstrip b'=' (s <> replicate k "=") ≡ s
unfolding rstrip
rstrip-append String.[] k h = rw (nil-append (replicate k "="), rstrip-replicate k) refl
rstrip-append (String.◌∷◌ d String.[]) k h =
    rw (single-append d (replicate k "="), rstrip-replicate k, h.0) refl
rstrip-append (String.◌∷◌ d (String.◌∷◌ b s)) k h =
    rw (cons-append d (String.◌∷◌ b s) (replicate k "="), rstrip-append (String.◌∷◌ b s) k h.1) refl

-- No character of a word is a space.
abbrev pub Spaceless : String → Type 0
Spaceless String.[] = Unit
Spaceless (String.◌∷◌ d s) = (is_space (code d) ≡ false) × Spaceless s

words-Spaceless : (s : String) → Spaceless s → words s ≡ (s, [])
unfolding words
words-Spaceless String.[] h = refl
words-Spaceless (String.◌∷◌ d s) h = rw (words-Spaceless s h.1, h.0) refl

words-append :
    (s : String) (d : Char) (t : String)
    → Spaceless s
    → is_space (code d) ≡ true
    → words (s <> String.◌∷◌ d t) ≡ (s, push (words t).0 (words t).1)
unfolding words
words-append String.[] d t h e = rw (nil-append (String.◌∷◌ d t), e) refl
words-append (String.◌∷◌ b s) d t h e =
    rw (cons-append b s (String.◌∷◌ d t), words-append s d t h.1 e, h.0) refl

-- A text of one character at least, none of them a space.
abbrev pub IsWord : String → Type 0
IsWord String.[] = ⊥
IsWord (String.◌∷◌ d s) = Spaceless (String.◌∷◌ d s)

split-word : (w : String) → IsWord w → split w ≡ w ∷ []
unfolding split words
split-word String.[] h = elim h [ ]
split-word (String.◌∷◌ d s) h = rw (words-Spaceless s h.1, h.0) refl

split-append : (w : String) (t : String) → IsWord w → split (w <> (" " <> t)) ≡ w ∷ split t
unfolding split words is_space
split-append String.[] t h = elim h [ ]
split-append (String.◌∷◌ d s) t h =
    rw
      (
        single-append (char 32 tt) t,
        cons-append d s (String.◌∷◌ (char 32 tt) t),
        words-append s (char 32 tt) t h.1 refl,
        h.0,
      )
      refl

-- Splitting undoes joining by spaces.
pub split-join : (ws : List String) → All IsWord ws → split (join " " ws) ≡ ws
unfolding split words
split-join [] h = refl
split-join (w ∷ []) h = split-word w h.0
split-join (w ∷ v ∷ ws) h =
    rw (split-append w (join " " (v ∷ ws)) h.0, split-join (v ∷ ws) h.1) refl
