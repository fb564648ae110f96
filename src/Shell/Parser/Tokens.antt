-- ===== src/Shell/Parser/Tokens.antt =====
-- The tokens of a command, described independently of the loop that takes them.
use vpfs_iroh.Base.{
  ℕ, zero, suc, ◌≤◌, ◌<◌, Str, Bool, true, false, none, some, ◌≡◌, ◌∙◌, refl, List, [], ◌∷◌, ◌++◌,
  length, take, drop, All, eqb, if◌then◌else◌, arith, Bool-cases, Option-cases, inl, inr, ◌⊎◌,
  append-nil, append_assoc,
}
use vpfs_iroh.Shell.Parser.{find, is_start, is_end, is_ascii, is_whitespace, last_of}

pub data Token : Type 0 where
  word : Str → Token
  less : Token
  greater : Token

-- The tokens that a character ends or is.
abbrev pub flush : Str → List Token
flush [] = []
flush (c ∷ w) = word (c ∷ w) ∷ []

-- Characters are collected into a word until white space or a redirection sign ends it.
unfoldable pub tokens : Str → Str → List Token
tokens w [] = flush w
tokens w (c ∷ s) =
    if is_whitespace c
    then flush w ++ tokens [] s
    else if eqb c b'<'
    then flush w ++ less ∷ tokens [] s
    else if eqb c b'>'
    then flush w ++ greater ∷ tokens [] s
    else tokens (w ++ c ∷ []) s

abbrev pub IsAscii : Str → Type 0
IsAscii = All (λ c. is_ascii c ≡ true)

-- The last character, if there is one, ends a token.
abbrev pub IsEnded : Str → Type 0
IsEnded [] = Unit
IsEnded (c ∷ s) = is_end (last_of c s) ≡ true

-- The last character is part of a token.
abbrev pub IsOpen : Str → Type 0
IsOpen [] = ⊥
IsOpen (c ∷ s) = is_end (last_of c s) ≡ false

find-cons :
    (p : ℕ → Bool) (c : ℕ) (s : Str) (i : ℕ)
    → find p (c ∷ s) ≡ some i
    → ((p c ≡ true) × (i ≡ 0)) ⊎ ((j : ℕ) × (p c ≡ false) × (find p s ≡ some j) × (i ≡ suc j))
unfolding find
find-cons p c s i h = elim (Bool-cases (p c)) [
  | inl here ↦ inl (here, ground arith)
  | inr there ↦ elim (Option-cases (find p s)) [
    | inl missing ↦ absurd (ground arith)
    | inr (j, found) ↦ inr (j, there, found, ground arith)
  ]
]

pub find-lt_length : (p : ℕ → Bool) (s : Str) (i : ℕ) → find p s ≡ some i → i < length s
find-lt_length p [] i h = unfold find in cc
find-lt_length p (c ∷ s) i h = elim (find-cons p c s i h) [
  | inl (here, e) ↦ rw e (omega arith)
  | inr (j, there, found, e) ↦ rw e (omega (arith, find-lt_length p s j found))
]

tokens-space : (c : ℕ) (s : Str) → is_start c ≡ false → tokens [] (c ∷ s) ≡ tokens [] s
unfolding tokens
tokens-space c s h = ground arith

tokens-inside :
    (w : Str) (c : ℕ) (s : Str) → is_end c ≡ false → tokens w (c ∷ s) ≡ tokens (w ++ c ∷ []) s
unfolding tokens
tokens-inside w c s h = ground arith

-- White space in front gives no token.
pub tokens-find_start :
    (s : Str) (i : ℕ) → find is_start s ≡ some i → tokens [] s ≡ tokens [] (drop i s)
tokens-find_start [] i h = unfold find in cc
tokens-find_start (c ∷ s) i h = elim (find-cons is_start c s i h) [
  | inl (here, e) ↦ rw e
  | inr (j, there, found, e) ↦ rw e (tokens-space c s there ∙ tokens-find_start s j found)
]

pub tokens-no_start : (s : Str) → find is_start s ≡ none → tokens [] s ≡ []
unfolding find tokens
tokens-no_start [] h = refl
tokens-no_start (c ∷ s) h = ground (arith, tokens-no_start s)

-- A word is taken up to the first character that ends it.
pub tokens-find_end :
    (w s : Str) (i : ℕ)
    → find is_end s ≡ some i
    → tokens w s ≡ flush (w ++ take i s) ++ tokens [] (drop i s)
tokens-find_end w [] i h = unfold find in cc
tokens-find_end w (c ∷ s) i h = elim (find-cons is_end c s i h) [
  | inl (here, e) ↦ rw (e, append-nil w) (unfold tokens in ground arith)
  | inr (j, there, found, e) ↦ rw e (
      tokens-inside w c s there
      ∙ tokens-find_end (w ++ c ∷ []) s j found
      ∙ rw (append_assoc w (c ∷ []) (take j s)))
]

pub drop-find :
    (p : ℕ → Bool) (s : Str) (i : ℕ)
    → find p s ≡ some i
    → (c : ℕ) × (t : Str) × (drop i s ≡ c ∷ t) × (p c ≡ true)
drop-find p [] i h = unfold find in cc
drop-find p (c ∷ s) i h = elim (find-cons p c s i h) [
  | inl (here, e) ↦ (c, s, rw e, here)
  | inr (j, there, found, e) ↦ let (d, t, at, good) = drop-find p s j found in (d, t, rw e at, good)
]

pub drop-IsAscii : (i : ℕ) (s : Str) → IsAscii s → IsAscii (drop i s)
drop-IsAscii zero s h = h
drop-IsAscii (suc i) [] h = tt
drop-IsAscii (suc i) (c ∷ s) h = drop-IsAscii i s h.1

pub drop-IsEnded : (i : ℕ) (s : Str) → IsEnded s → IsEnded (drop i s)
drop-IsEnded zero s h = h
drop-IsEnded (suc i) [] h = tt
drop-IsEnded (suc i) (c ∷ []) h = drop-IsEnded i [] tt
drop-IsEnded (suc i) (c ∷ d ∷ s) h = drop-IsEnded i (d ∷ s) h

pub length-drop_le : (i : ℕ) (s : Str) → length (drop i s) ≤ length s
length-drop_le zero s = omega arith
length-drop_le (suc i) [] = omega arith
length-drop_le (suc i) (c ∷ s) = omega (arith, length-drop_le i s)

-- A text that is ended has a delimiter.
pub find-IsEnded : (c : ℕ) (s : Str) → IsEnded (c ∷ s) → (i : ℕ) × (find is_end (c ∷ s) ≡ some i)
unfolding find
find-IsEnded c [] h = (0, ground arith)
find-IsEnded c (d ∷ s) h =
    let (i, found) = find-IsEnded d s h in
    elim (Bool-cases (is_end c)) [
      | inl here ↦ (0, ground arith)
      | inr there ↦ (suc i, rw (there, found))
    ]

-- The first delimiter of a text that starts a word stands behind its first character.
pub find-suc :
    (c : ℕ) (s : Str) (i : ℕ)
    → is_end c ≡ false
    → find is_end (c ∷ s) ≡ some i
    → (j : ℕ) × (i ≡ suc j)
find-suc c s i inside h = elim (find-cons is_end c s i h) [
  | inl (here, e) ↦ absurd (cc)
  | inr (j, there, found, e) ↦ (j, e)
]
