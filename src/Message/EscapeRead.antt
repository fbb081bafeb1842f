-- ===== src/Message/EscapeRead.antt =====
-- `json_escape` of msg3_parser.rs, read back by the grammar of JSON strings.
use mathlib.Core.List.{append_assoc}
use qq_analyzer.Base.{
  ℕ, zero, suc, ◌+◌, ◌-◌, ◌*◌, [], ◌∷◌, ◌++◌, Option, none, some, true, false, ◌||◌, ◌&&◌, ltb, leb,
  ◌==◌, if◌then◌else◌, ==_iff, Bool-cases, ltb→lt, ◌≡◌, inl, inr, refl, sym, ap, subst, ◌∙◌, arith,
  ◌<◌, ◌/◌, ◌%◌,
}
use qq_analyzer.Text.{Text}
use qq_analyzer.Message.Escape.{hex_digit, escape_char, json_escape}

-- The character that an escape of two characters stands for.
abbrev pub unescaped : ℕ → Option ℕ
unescaped e =
    if e == 34 || e == 92 || e == 47
    then some e
    else if e == 98
    then some 8
    else if e == 102
    then some 12
    else if e == 110
    then some 10
    else if e == 114
    then some 13
    else if e == 116
    then some 9
    else none

abbrev pub hex_value : ℕ → Option ℕ
hex_value d =
    if leb 48 d && leb d 57
    then some (d - 48)
    else if leb 97 d && leb d 102
    then some (d - 87)
    else if leb 65 d && leb d 70
    then some (d - 55)
    else none

abbrev pub cons_read : Option ℕ → Option (Text × Text) → Option (Text × Text)
cons_read none more = none
cons_read (some c) none = none
cons_read (some c) (some (text, rest)) = some (c ∷ text, rest)

-- Where the reader of a string is: between characters, behind a backslash, or at a hexadecimal digit
-- of an escape, with the digits to come behind it and the value of those before it.
pub data Place : Type 0 where
  between : Place
  escape : Place
  digit : ℕ → ℕ → Place

-- The value with one more digit.
abbrev with_digit : ℕ → Option ℕ → Option ℕ
with_digit value none = none
with_digit value (some d) = some (value * 16 + d)

-- The rest of a JSON string behind its first quote: the text up to the closing quote, and what
-- follows. A control character must not stand in it as it is. The two halves of a surrogate pair,
-- which is never written here, are not put together.
unfoldable pub read_from : Place → Text → Option (Text × Text)
read_from place [] = none
read_from between (c ∷ cs) = elim (c == 34) [
  | true ↦ some ([], cs)
  | false ↦ elim (c == 92) [
    | true ↦ read_from escape cs
    | false ↦ elim (ltb c 32) [ true ↦ none | false ↦ cons_read (some c) (read_from between cs) ]
  ]
]
read_from escape (c ∷ cs) = elim (c == 117) [
  | true ↦ read_from (digit 3 0) cs
  | false ↦ cons_read (unescaped c) (read_from between cs)
]
read_from (digit zero value) (c ∷ cs) =
    cons_read (with_digit value (hex_value c)) (read_from between cs)
read_from (digit (suc more) value) (c ∷ cs) = elim (hex_value c) [
  | none ↦ none
  | some d ↦ read_from (digit more (value * 16 + d)) cs
]

abbrev pub read_string : Text → Option (Text × Text)
read_string text = read_from between text

abbrev ReadsAs : Text → ℕ → Type 0
ReadsAs cs c = read_string (escape_char c ++ cs) ≡ cons_read (some c) (read_string cs)

-- One of the characters with a short escape, found by the test.
reads_escaped : (c k : ℕ) (cs : Text) → (c == k) ≡ true → ReadsAs cs k → ReadsAs cs c
reads_escaped c k cs same e = subst (ReadsAs cs) (sym ((==_iff c k).0 same)) e

hex_value-hex_digit : (n : ℕ) → n < 16 → hex_value (hex_digit n) ≡ some n
hex_value-hex_digit n h = elim (Bool-cases (ltb n 10)) [
  | inl low ↦ rw low (ground arith)
  | inr high ↦ rw high (ground arith)
]

read-digit :
    (c d more value : ℕ) (cs : Text)
    → hex_value c ≡ some d
    → read_from (digit (suc more) value) (c ∷ cs) ≡ read_from (digit more (value * 16 + d)) cs
unfolding read_from
read-digit c d more value cs e = rw (e, read_from) refl

read-last_digit :
    (c d value : ℕ) (cs : Text)
    → hex_value c ≡ some d
    → read_from (digit zero value) (c ∷ cs)
      ≡ cons_read (some (value * 16 + d)) (read_from between cs)
unfolding read_from
read-last_digit c d value cs e = rw (e, read_from) refl

read-unicode :
    (c : ℕ) (cs : Text)
    → c < 32
    → read_string (92 ∷ 117 ∷ 48 ∷ 48 ∷ hex_digit (c / 16) ∷ hex_digit (c % 16) ∷ cs)
      ≡ cons_read (some c) (read_string cs)
unfolding read_from
read-unicode c cs h =
    let high = hex_value-hex_digit (c / 16) (omega arith) in
    let low = hex_value-hex_digit (c % 16) (omega arith) in
    let value : (0 * 16 + c / 16) * 16 + c % 16 ≡ c = omega arith in
    read-digit (hex_digit (c / 16)) (c / 16) 0 0 (hex_digit (c % 16) ∷ cs) high
    ∙ read-last_digit (hex_digit (c % 16)) (c % 16) (0 * 16 + c / 16) cs low
    ∙ ap (λ k. cons_read (some k) (read_string cs)) value

-- A character in its escaped form reads back.
read-escape_char : (c : ℕ) (cs : Text) → ReadsAs cs c
unfolding read_from
read-escape_char c cs = elim (Bool-cases (c == 92)) [
  | inl same ↦ reads_escaped c 92 cs same refl
  | inr h1 ↦ elim (Bool-cases (c == 34)) [
    | inl same ↦ reads_escaped c 34 cs same refl
    | inr h2 ↦ elim (Bool-cases (c == 10)) [
      | inl same ↦ reads_escaped c 10 cs same refl
      | inr h3 ↦ elim (Bool-cases (c == 13)) [
        | inl same ↦ reads_escaped c 13 cs same refl
        | inr h4 ↦ elim (Bool-cases (c == 9)) [
          | inl same ↦ reads_escaped c 9 cs same refl
          | inr h5 ↦ elim (Bool-cases (c == 8)) [
            | inl same ↦ reads_escaped c 8 cs same refl
            | inr h6 ↦ elim (Bool-cases (c == 12)) [
              | inl same ↦ reads_escaped c 12 cs same refl
              | inr h7 ↦ elim (Bool-cases (ltb c 32)) [
                | inl low ↦
                    rw (h1, h2, h3, h4, h5, h6, h7, low) (read-unicode c cs (ltb→lt c 32 low))
                | inr high ↦ rw (h1, h2, h3, h4, h5, h6, h7, high, read_from, h2, h1, high) refl
              ]
            ]
          ]
        ]
      ]
    ]
  ]
]

read-quote : (rest : Text) → read_string (34 ∷ rest) ≡ some ([], rest)
unfolding read_from
read-quote rest = refl

-- An escaped text in quotes reads back as the text, whatever characters are in it.
pub read_string-json_escape :
    (text rest : Text) → read_string (json_escape text ++ 34 ∷ rest) ≡ some (text, rest)
unfolding json_escape
read_string-json_escape [] rest = read-quote rest
read_string-json_escape (c ∷ cs) rest =
    ap read_string (append_assoc (escape_char c) (json_escape cs) (34 ∷ rest))
    ∙ read-escape_char c (json_escape cs ++ 34 ∷ rest)
    ∙ ap (cons_read (some c)) (read_string-json_escape cs rest)
