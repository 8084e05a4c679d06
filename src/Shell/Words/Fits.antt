-- ===== src/Shell/Words/Fits.antt =====
-- The buffer of `cmd_write`.
use mathlib.Core.Path.{subst}
use caozuokeshe.Base.{
  ℕ, zero, suc, ◌+◌, ◌-◌, ◌<◌, ◌≤◌, ◌≡◌, ◌⊎◌, refl, ap, inl, inr, Option, some, none, List, [], ◌∷◌,
  arith, length, length-append, drop, Bool-cases, c_string,
}
use caozuokeshe.Shell.Text.{
  is_delimiter, strip_newline, parse_command, join_args, skip_delimiters, token, strtok, parse_loop,
  fgets, read_line, max_input_length,
}
use caozuokeshe.Shell.Session.{line_of, parse_line}
use caozuokeshe.Shell.FileCommands.{text_of}

skip_delimiters-le : (s : List ℕ) → length (skip_delimiters s) ≤ length s
unfolding skip_delimiters
skip_delimiters-le [] = omega arith
skip_delimiters-le (c ∷ s) = ground (arith, skip_delimiters-le s)

-- A token and its delimiter are taken off, or the string is used up.
token-le :
    (s : List ℕ)
    → (length (token s).0 + suc (length (token s).1) ≤ length s)
      ⊎ (((token s).1 ≡ []) × (length (token s).0 ≤ length s))
unfolding token
token-le [] = inr (refl, omega arith)
token-le (c ∷ s) = elim (Bool-cases (is_delimiter c)) [
  | inl e ↦ rw e (inl (omega arith))
  | inr e ↦ elim (token-le s) [
    | inl h ↦ rw e (inl (omega (arith, h)))
    | inr (f, h) ↦ rw e (inr (f, omega (arith, h)))
  ]
]

-- A word joined with those that follow it.
join_args-cons :
    (w : List ℕ) (ws : List (List ℕ))
    → length (join_args (w ∷ ws)) ≤ length w + suc (length (join_args ws))
unfolding join_args
join_args-cons w [] = omega arith
join_args-cons w (next ∷ ws) = omega (arith, length-append w (32 ∷ join_args (next ∷ ws)))

join_args-nil : join_args [] ≡ []
unfolding join_args
join_args-nil = refl

join_args-one : (w : List ℕ) → join_args (w ∷ []) ≡ w
unfolding join_args
join_args-one w = refl

parse_loop-nil : (n : ℕ) → parse_loop n [] ≡ []
unfolding parse_loop strtok skip_delimiters
parse_loop-nil zero = refl
parse_loop-nil (suc n) = refl

parse_loop-join : (n : ℕ) (s : List ℕ) → length (join_args (parse_loop n s)) ≤ length s
unfolding parse_loop strtok join_args
parse_loop-join zero s = omega arith
parse_loop-join (suc n) s = go (skip_delimiters s) (skip_delimiters-le s) (λ t. parse_loop-join n t)
  where
    one : (n : ℕ) (w t : List ℕ) → t ≡ [] → length (join_args (w ∷ parse_loop n t)) ≤ length w
    one n w t e = rw (e, parse_loop-nil n) (omega (arith, ap length (join_args-one w)))

    go :
        (t : List ℕ)
        → length t ≤ length s
        → ((t : List ℕ) → length (join_args (parse_loop n t)) ≤ length t)
        → length (
            join_args
              (elim (elim t as (λ l. Option (List ℕ × List ℕ)) [
                | [] ↦ none
                | c ∷ rest ↦ some (token (c ∷ rest))
              ])
                as (λ o. List (List ℕ)) [ none ↦ [] | some r ↦ r.0 ∷ parse_loop n r.1 ]))
          ≤ length s
    go [] le rec = omega (arith, ap length join_args-nil)
    go (c ∷ rest) le rec = elim (token-le (c ∷ rest)) [
      | inl h ↦
          let r = token (c ∷ rest) in
          omega (arith, h, le, rec r.1, join_args-cons r.0 (parse_loop n r.1))
      | inr (e, h) ↦ let r = token (c ∷ rest) in omega (arith, h, le, one n r.0 r.1 e)
    ]

-- Without its first two arguments a text is no longer.
join_args-drop : (ws : List (List ℕ)) → length (join_args (drop 2 ws)) ≤ length (join_args ws)
unfolding join_args
join_args-drop [] = omega arith
join_args-drop (v ∷ []) = omega arith
join_args-drop (v ∷ w ∷ []) = omega arith
join_args-drop (v ∷ w ∷ next ∷ ws) = omega (
  arith,
  length-append v (32 ∷ join_args (w ∷ next ∷ ws)),
  length-append w (32 ∷ join_args (next ∷ ws)),
)

c_string-le : (s : List ℕ) → length (c_string s) ≤ length s
unfolding c_string
c_string-le [] = omega arith
c_string-le (b ∷ s) = ground (arith, c_string-le s)

strip_newline-le : (s : List ℕ) → length (strip_newline s) ≤ length s
unfolding strip_newline
strip_newline-le [] = omega arith
strip_newline-le (c ∷ []) = ground arith
strip_newline-le (c ∷ d ∷ s) = omega (arith, strip_newline-le (d ∷ s))

read_line-le : (room : ℕ) (input : List ℕ) → length (read_line room input).0 ≤ room
unfolding read_line
read_line-le zero input = omega arith
read_line-le (suc room) [] = omega arith
read_line-le (suc room) (c ∷ input) = ground (arith, read_line-le room input)

text_of-le : (raw : List ℕ) → length (text_of (parse_line raw)) ≤ length raw
unfolding parse_line line_of parse_command
text_of-le raw = omega (
  arith,
  join_args-drop (parse_loop 9 (strip_newline (c_string raw))),
  parse_loop-join 9 (strip_newline (c_string raw)),
  strip_newline-le (c_string raw),
  c_string-le raw,
)

fgets-le :
    (size : ℕ) (input line rest : List ℕ)
    → fgets size input ≡ some (line, rest)
    → length line ≤ size - 1
unfolding fgets
fgets-le size [] line rest e = cc
fgets-le size (c ∷ input) line rest e =
    subst (λ o. elim o as (λ p. Type 0) [ none ↦ Unit {0} | some p ↦ length p.0 ≤ size - 1 ]) e
      (read_line-le (size - 1) (c ∷ input))

fits : (a b : ℕ) → a ≤ b → b ≤ 511 → a < 512
fits a b h k = omega arith

-- The text that `cmd_write` joins from the arguments of a line that `main` has read with `fgets` is
-- shorter than 512 bytes, so that it fits the buffer with its terminator, whatever is typed.
pub text_of-fits :
    (input line rest : List ℕ)
    → fgets max_input_length input ≡ some (line, rest)
    → length (text_of (parse_line line)) < 512
text_of-fits input line rest e =
    fits (length (text_of (parse_line line))) (length line) (text_of-le line)
      (fgets-le max_input_length input line rest e)
