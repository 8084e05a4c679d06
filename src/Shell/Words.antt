-- ===== src/Shell/Words.antt =====
-- The words of a line, and how `parse_command` finds them with `strtok`.
pub mod Joined
pub mod Fits
use mathlib.Core.Path.{subst}
use caozuokeshe.Base.{
  ℕ, zero, suc, ◌+◌, ◌<◌, ◌≤◌, ◌≡◌, ◌⊎◌, refl, sym, ap, ◌∙◌, inl, inr, Bool, true, false, List, [],
  ◌∷◌, ◌++◌, Option, some, none, arith, length, take, Bool-cases, if◌then◌else◌, ◌==◌,
}
use caozuokeshe.Shell.Text.{
  is_delimiter, skip_delimiters, token, strtok, parse_loop, parse_command, max_args,
}

-- A text cut at every delimiter.
abbrev cons_head : ℕ → List (List ℕ) → List (List ℕ)
cons_head c [] = []
cons_head c (piece ∷ rest) = (c ∷ piece) ∷ rest

unfoldable pub pieces : List ℕ → List (List ℕ)
pieces [] = [] ∷ []
pieces (c ∷ s) = let rest = pieces s in if is_delimiter c then [] ∷ rest else cons_head c rest

-- The pieces that are not empty.
unfoldable pub non_empty : List (List ℕ) → List (List ℕ)
non_empty [] = []
non_empty ([] ∷ rest) = non_empty rest
non_empty ((c ∷ piece) ∷ rest) = (c ∷ piece) ∷ non_empty rest

-- The words of a text.
unfoldable pub words : List ℕ → List (List ℕ)
unfolding pieces non_empty
words s = non_empty (pieces s)

words-nil : words [] ≡ []
unfolding words non_empty pieces
words-nil = refl

skip-kept : (c : ℕ) (s : List ℕ) → is_delimiter c ≡ false → skip_delimiters (c ∷ s) ≡ c ∷ s
unfolding skip_delimiters
skip-kept c s e = rw e refl

words-skip : (s : List ℕ) → words (skip_delimiters s) ≡ words s
unfolding words skip_delimiters pieces non_empty
words-skip [] = refl
words-skip (c ∷ s) = elim (Bool-cases (is_delimiter c)) [
  | inl e ↦ rw e (words-skip s)
  | inr e ↦ ap words (skip-kept c s e)
]

abbrev Starts : List ℕ → Type 0
Starts [] = Unit {0}
Starts (c ∷ s) = is_delimiter c ≡ false

skip-Starts : (s : List ℕ) → Starts (skip_delimiters s)
unfolding skip_delimiters
skip-Starts [] = tt
skip-Starts (c ∷ s) = elim (Bool-cases (is_delimiter c)) [
  | inl e ↦ rw e (skip-Starts s)
  | inr e ↦ subst Starts (sym (skip-kept c s e)) e
]

token-first : (c : ℕ) (s : List ℕ) → is_delimiter c ≡ false → (token (c ∷ s)).0 ≡ c ∷ (token s).0
unfolding token
token-first c s e = rw e refl

-- A token is the first piece, and the others are those of what is left, if anything is.
token-pieces :
    (s : List ℕ)
    → (pieces s ≡ (token s).0 ∷ pieces (token s).1)
      ⊎ ((pieces s ≡ (token s).0 ∷ []) × ((token s).1 ≡ []))
unfolding token pieces
token-pieces [] = inr (refl, refl)
token-pieces (c ∷ s) = elim (Bool-cases (is_delimiter c)) [
  | inl e ↦ rw (e) (inl refl)
  | inr e ↦ elim (token-pieces s) [
    | inl f ↦ rw (e) (inl (ap (cons_head c) f))
    | inr (f, g) ↦ rw (e) (inr (ap (cons_head c) f, g))
  ]
]

-- The first word, if there is one, and the others.
abbrev FirstWord : List ℕ → Option (List ℕ × List ℕ) → Type 0
FirstWord s none = words s ≡ []
FirstWord s (some r) = words s ≡ r.0 ∷ words r.1

token-words :
    (c : ℕ) (s : List ℕ)
    → is_delimiter c ≡ false
    → words (c ∷ s) ≡ (token (c ∷ s)).0 ∷ words (token (c ∷ s)).1
unfolding words non_empty
token-words c s h =
    let r = token (c ∷ s) in
    let first : r.0 ≡ c ∷ (token s).0 = token-first c s h in
    let put : (rest : List (List ℕ)) → non_empty (r.0 ∷ rest) ≡ r.0 ∷ non_empty rest =
      λ rest. ap (λ x. non_empty (x ∷ rest)) first ∙ ap (λ x. x ∷ non_empty rest) (sym first) in
    elim (token-pieces (c ∷ s)) [
      | inl f ↦ ap non_empty f ∙ put (pieces r.1)
      | inr (f, g) ↦ ap non_empty f ∙ put [] ∙ ap (λ x. r.0 ∷ x) (sym (ap words g))
    ]

strtok-FirstWord : (s : List ℕ) → FirstWord s (strtok s)
unfolding strtok
strtok-FirstWord s = go (skip_delimiters s) (words-skip s) (skip-Starts s)
  where
    go :
        (t : List ℕ)
        → words t ≡ words s
        → Starts t
        → FirstWord s (elim t [ [] ↦ none | c ∷ rest ↦ some (token (c ∷ rest)) ])
    go [] e h = sym e ∙ words-nil
    go (c ∷ rest) e h = sym e ∙ token-words c rest h

parse_loop-words : (n : ℕ) (s : List ℕ) → parse_loop n s ≡ take n (words s)
unfolding parse_loop
parse_loop-words zero s = refl
parse_loop-words (suc n) s = go (strtok s) (strtok-FirstWord s) (λ r. parse_loop-words n r)
  where
    go :
        (o : Option (List ℕ × List ℕ))
        → FirstWord s o
        → ((r : List ℕ) → parse_loop n r ≡ take n (words r))
        → elim o as (λ p. List (List ℕ)) [ none ↦ [] | some r ↦ r.0 ∷ parse_loop n r.1 ]
          ≡ take (suc n) (words s)
    go none e more = ap (take (suc n)) (sym e)
    go (some r) e more = ap (λ x. r.0 ∷ x) (more r.1) ∙ ap (take (suc n)) (sym e)

-- `parse_command` returns the first nine words of the line, where the words are the pieces that are
-- not empty once the line is cut at every space, tab and newline.
pub parse_command-eq-words : (s : List ℕ) → parse_command s ≡ take 9 (words s)
unfolding parse_command
parse_command-eq-words s = parse_loop-words 9 s
