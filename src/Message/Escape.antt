-- ===== src/Message/Escape.antt =====
-- `json_escape` and `hex_bytes` of msg3_parser.rs, which write the strings of its JSON.
use qq_analyzer.Base.{ℕ, ◌+◌, ◌/◌, ◌%◌, List, [], ◌∷◌, ◌++◌, ltb, ◌==◌, if◌then◌else◌, length, take}
use qq_analyzer.Text.{Text, lit}

abbrev pub hex_digit : ℕ → ℕ
hex_digit n = if ltb n 10 then 48 + n else 87 + n

-- `{:04x}` of a number below 256.
abbrev pub hex4 : ℕ → Text
hex4 n = 48 ∷ 48 ∷ hex_digit (n / 16) ∷ hex_digit (n % 16) ∷ []

-- A control character with no short form becomes `\u` and its number.
abbrev pub escape_char : ℕ → Text
escape_char c =
    if c == 92
    then 92 ∷ 92 ∷ []
    else if c == 34
    then 92 ∷ 34 ∷ []
    else if c == 10
    then 92 ∷ 110 ∷ []
    else if c == 13
    then 92 ∷ 114 ∷ []
    else if c == 9
    then 92 ∷ 116 ∷ []
    else if c == 8
    then 92 ∷ 98 ∷ []
    else if c == 12
    then 92 ∷ 102 ∷ []
    else if ltb c 32
    then 92 ∷ 117 ∷ hex4 c
    else c ∷ []

unfoldable pub json_escape : Text → Text
json_escape [] = []
json_escape (c ∷ cs) = escape_char c ++ json_escape cs

abbrev hex_pairs : List ℕ → Text
hex_pairs [] = []
hex_pairs (b ∷ []) = hex_digit (b / 16) ∷ hex_digit (b % 16) ∷ []
hex_pairs (b ∷ c ∷ rest) = hex_digit (b / 16) ∷ hex_digit (b % 16) ∷ 32 ∷ hex_pairs (c ∷ rest)

unfoldable pub hex_bytes : List ℕ → ℕ → Text
hex_bytes bytes max_len =
    hex_pairs (take max_len bytes) ++ (if ltb max_len (length bytes) then lit " ..." else [])
