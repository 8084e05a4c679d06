-- ===== src/Shell/Words/Joined.antt =====
-- Words that are typed with spaces between them.
use caozuokeshe.Base.{
  ℕ, zero, suc, ◌≡◌, ◌≢◌, refl, ap, ◌∙◌, false, List, [], ◌∷◌, ◌++◌, arith, some, ◌<◌, ◌-◌,
  c_string-whole, length, take, ◌==◌, IsString,
}
use caozuokeshe.Shell.Text.{
  is_delimiter, newline, strip_newline, parse_command, join_args, read_line, fgets,
  max_input_length,
}
use caozuokeshe.Shell.Session.{line_of, parse_line}
use caozuokeshe.Shell.FileCommands.{text_of}
use caozuokeshe.Shell.Words.{pieces, non_empty, words, parse_command-eq-words}

-- Bytes that are neither delimiters nor zero.
abbrev pub IsPlain : List ℕ → Type 0
IsPlain [] = Unit {0}
IsPlain (c ∷ s) = (c ≢ 0) × (is_delimiter c ≡ false) × IsPlain s

-- Words: such bytes, and at least one.
abbrev pub AreWords : List (List ℕ) → Type 0
AreWords [] = Unit {0}
AreWords ([] ∷ ws) = ⊥
AreWords ((c ∷ w) ∷ ws) = IsPlain (c ∷ w) × AreWords ws

pieces-plain : (w : List ℕ) → IsPlain w → pieces w ≡ w ∷ []
unfolding pieces
pieces-plain [] h = refl
pieces-plain (c ∷ w) (nz, nd, h) = rw (nd, pieces-plain w h) refl

pieces-space : (w s : List ℕ) → IsPlain w → pieces (w ++ 32 ∷ s) ≡ w ∷ pieces s
unfolding pieces
pieces-space [] s h = refl
pieces-space (c ∷ w) s (nz, nd, h) = rw (nd, pieces-space w s h) refl

words-join_args : (ws : List (List ℕ)) → AreWords ws → words (join_args ws) ≡ ws
unfolding words non_empty pieces join_args
words-join_args [] h = refl
words-join_args ([] ∷ ws) h = absurd h
words-join_args ((c ∷ w) ∷ []) (p, h) = ap non_empty (pieces-plain (c ∷ w) p)
words-join_args ((c ∷ w) ∷ next ∷ ws) (p, h) =
    ap non_empty (pieces-space (c ∷ w) (join_args (next ∷ ws)) p)
    ∙ ap (λ l. (c ∷ w) ∷ l) (words-join_args (next ∷ ws) h)

-- What is typed has no zero and no newline.
abbrev IsTyped : List ℕ → Type 0
IsTyped [] = Unit {0}
IsTyped (c ∷ s) = (c ≢ 0) × ((c == newline) ≡ false) × IsTyped s

plain-IsTyped : (w s : List ℕ) → IsPlain w → IsTyped s → IsTyped (w ++ s)
plain-IsTyped [] s h t = t
plain-IsTyped (c ∷ w) s (nz, nd, h) t = (nz, ground (arith, nd), plain-IsTyped w s h t)

word-IsTyped : (w : List ℕ) → IsPlain w → IsTyped w
word-IsTyped [] h = tt
word-IsTyped (c ∷ w) (nz, nd, h) = (nz, ground (arith, nd), word-IsTyped w h)

join_args-IsTyped : (ws : List (List ℕ)) → AreWords ws → IsTyped (join_args ws)
unfolding join_args
join_args-IsTyped [] h = tt
join_args-IsTyped ([] ∷ ws) h = absurd h
join_args-IsTyped ((c ∷ w) ∷ []) (p, h) = word-IsTyped (c ∷ w) p
join_args-IsTyped ((c ∷ w) ∷ next ∷ ws) (p, h) =
    plain-IsTyped (c ∷ w) (32 ∷ join_args (next ∷ ws)) p
      (λ e. absurd (omega (arith, e)), refl, join_args-IsTyped (next ∷ ws) h)

read_line-typed :
    (room : ℕ) (s more : List ℕ)
    → IsTyped s
    → length s < room
    → read_line room (s ++ newline ∷ more) ≡ (s ++ newline ∷ [], more)
unfolding read_line
read_line-typed zero s more h lt = absurd (omega arith)
read_line-typed (suc room) [] more h lt = refl
read_line-typed (suc room) (c ∷ s) more (nz, nn, h) lt =
    rw nn (ap (λ r. (c ∷ r.0, r.1)) (read_line-typed room s more h (omega arith)))

strip_newline-snoc : (s : List ℕ) → strip_newline (s ++ newline ∷ []) ≡ s
unfolding strip_newline
strip_newline-snoc [] = refl
strip_newline-snoc (c ∷ []) = refl
strip_newline-snoc (c ∷ d ∷ s) = ap (λ l. c ∷ l) (strip_newline-snoc (d ∷ s))

snoc-IsString : (s : List ℕ) → IsTyped s → IsString (s ++ newline ∷ [])
snoc-IsString [] h = (λ e. absurd (omega (arith, e)), tt)
snoc-IsString (c ∷ s) (nz, nn, h) = (nz, snoc-IsString s h)

line_of-typed : (s : List ℕ) → IsTyped s → line_of (s ++ newline ∷ []) ≡ s
unfolding line_of
line_of-typed s h =
    ap strip_newline (c_string-whole (s ++ newline ∷ []) (snoc-IsString s h)) ∙ strip_newline-snoc s

fgets-line :
    (s more : List ℕ) (size : ℕ)
    → fgets size (s ++ newline ∷ more) ≡ some (read_line (size - 1) (s ++ newline ∷ more))
unfolding fgets
fgets-line [] more size = refl
fgets-line (c ∷ s) more size = refl

-- Words with no space, tab, newline or zero in them, typed with a space between two of them and a
-- newline behind, fewer than 511 bytes in all: `fgets` takes the line and leaves the rest of the input,
-- and `parse_command` gives back the first nine words.
pub parse_line-join_args :
    (ws : List (List ℕ)) (more : List ℕ)
    → AreWords ws
    → length (join_args ws) < 511
    → let typed = join_args ws ++ newline ∷ [] in
      (fgets max_input_length (join_args ws ++ newline ∷ more) ≡ some (typed, more))
      × (parse_line typed ≡ take 9 ws)
unfolding parse_line
parse_line-join_args ws more h lt =
    let t = join_args-IsTyped ws h in
    (
      fgets-line (join_args ws) more max_input_length
          ∙ ap some (read_line-typed 511 (join_args ws) more t lt),
      ap parse_command (line_of-typed (join_args ws) t)
          ∙ parse_command-eq-words (join_args ws)
          ∙ ap (take 9) (words-join_args ws h),
    )

-- The text that `cmd_write` makes of such a line is its third to ninth word with a space between two
-- of them: the words from the tenth on are lost.
pub text_of-join_args :
    (command fd : List ℕ) (ws : List (List ℕ))
    → AreWords (command ∷ fd ∷ ws)
    → text_of (parse_line (join_args (command ∷ fd ∷ ws) ++ newline ∷ [])) ≡ join_args (take 7 ws)
unfolding parse_line
text_of-join_args command fd ws h = ap text_of (
    ap parse_command
      (line_of-typed (join_args (command ∷ fd ∷ ws)) (join_args-IsTyped (command ∷ fd ∷ ws) h))
    ∙ parse_command-eq-words (join_args (command ∷ fd ∷ ws))
    ∙ ap (take 9) (words-join_args (command ∷ fd ∷ ws) h))
