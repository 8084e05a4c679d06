-- ===== src/Shell/Text.antt =====
-- The C library's functions on text that main.c calls, and `parse_command`.
use caozuokeshe.Base.{
  ℕ, zero, suc, ◌+◌, ◌-◌, ◌*◌, ◌%◌, ◌^◌, min, Bool, true, false, ◌&&◌, ◌||◌, Option, none, some,
  List, [], ◌∷◌, ◌++◌, ltb, leb, ◌==◌, if◌then◌else◌, get_or,
}

abbrev pub newline : ℕ
newline = 10

abbrev pub max_input_length : ℕ
max_input_length = 512

abbrev pub max_args : ℕ
max_args = 10

-- What `fgets` takes of the input, at most `room` bytes, and what it leaves.
unfoldable pub read_line : (room : ℕ) → List ℕ → List ℕ × List ℕ
read_line zero input = ([], input)
read_line (suc room) [] = ([], [])
read_line (suc room) (c ∷ input) =
    let (line, rest) = read_line room input in
    if c == newline then (c ∷ [], input) else (c ∷ line, rest)

-- `fgets(buffer, size, stdin)`; `none` is `NULL`.
unfoldable pub fgets : (size : ℕ) → List ℕ → Option (List ℕ × List ℕ)
unfolding read_line
fgets size [] = none
fgets size (c ∷ input) = some (read_line (size - 1) (c ∷ input))

-- `main` takes the newline off the end of the line.
unfoldable pub strip_newline : List ℕ → List ℕ
strip_newline [] = []
strip_newline (c ∷ []) = if c == newline then [] else c ∷ []
strip_newline (c ∷ d ∷ line) = c ∷ strip_newline (d ∷ line)

-- The bytes of `" \t\n"`.
abbrev pub is_delimiter : ℕ → Bool
is_delimiter c = (c == 32) || ((c == 9) || (c == newline))

-- `strtok` passes over the delimiters that come first,
unfoldable pub skip_delimiters : List ℕ → List ℕ
skip_delimiters [] = []
skip_delimiters (c ∷ s) = let rest = skip_delimiters s in if is_delimiter c then rest else c ∷ s

-- and takes the bytes before the next one, which it overwrites.
unfoldable pub token : List ℕ → List ℕ × List ℕ
token [] = ([], [])
token (c ∷ s) = let (taken, rest) = token s in if is_delimiter c then ([], s) else (c ∷ taken, rest)

-- `strtok(s, " \t\n")`: the token, and where the next call goes on; `none` is `NULL`.
unfoldable pub strtok : List ℕ → Option (List ℕ × List ℕ)
unfolding skip_delimiters token
strtok s = elim (skip_delimiters s) [ [] ↦ none | c ∷ rest ↦ some (token (c ∷ rest)) ]

-- The loop of `parse_command`, with room for so many more arguments.
unfoldable pub parse_loop : (room : ℕ) → List ℕ → List (List ℕ)
parse_loop zero s = []
parse_loop (suc room) s = elim (strtok s) [ none ↦ [] | some r ↦ r.0 ∷ parse_loop room r.1 ]

-- `parse_command`: the arguments; their number is `argc`.
unfoldable pub parse_command : List ℕ → List (List ℕ)
unfolding parse_loop
parse_command input = parse_loop (max_args - 1) input

-- `args[i]`
abbrev pub arg : List (List ℕ) → ℕ → List ℕ
arg args i = get_or args i []

-- `isspace`
abbrev is_space : ℕ → Bool
is_space c = (c == 32) || (leb 9 c && leb c 13)

skip_spaces : List ℕ → List ℕ
skip_spaces [] = []
skip_spaces (c ∷ s) = let rest = skip_spaces s in if is_space c then rest else c ∷ s

-- The value of the digits at the beginning of a string, for a base of at most 10.
digits_value : (base value : ℕ) → List ℕ → ℕ
digits_value base value [] = value
digits_value base value (c ∷ s) =
    let rest = digits_value base (value * base + (c - b'0')) s in
    if leb b'0' c && ltb c (b'0' + base) then rest else value

-- A `long` as its pattern, of a magnitude and its sign; what is out of range becomes `LONG_MAX` or
-- `LONG_MIN`.
abbrev long_of : (negative : Bool) → ℕ → ℕ
long_of true n = (2 ^ 64 - min n (2 ^ 63)) % 2 ^ 64
long_of false n = min n (2 ^ 63 - 1)

-- The sign and the digits of a number.
signed_value : (base : ℕ) → List ℕ → ℕ
unfolding digits_value
signed_value base [] = 0
signed_value base (c ∷ s) =
    if c == b'-'
    then long_of true (digits_value base 0 s)
    else if c == b'+'
    then long_of false (digits_value base 0 s)
    else long_of false (digits_value base 0 (c ∷ s))

-- `strtol(s, NULL, base)`
unfoldable pub strtol : (base : ℕ) → List ℕ → ℕ
unfolding signed_value skip_spaces
strtol base s = signed_value base (skip_spaces s)

-- `atoi`: `strtol` in base 10, cut to an `int`.
unfoldable pub atoi : List ℕ → ℕ
unfolding strtol
atoi s = strtol 10 s % 2 ^ 32

-- The loop of `cmd_write` that joins arguments with a space between two of them.
unfoldable pub join_args : List (List ℕ) → List ℕ
join_args [] = []
join_args (word ∷ []) = word
join_args (word ∷ next ∷ words) = word ++ 32 ∷ join_args (next ∷ words)
