-- ===== src/Msg3/Proto.antt =====
-- `looks_like_proto`: whether bytes are a protobuf message of at most 12 fields.
use qq_analyzer.Base.{
  ℕ, zero, suc, ◌+◌, ◌/◌, ◌%◌, List, [], ◌∷◌, Option, none, some, Bool, false, ◌||◌, ltb, ◌==◌,
  if◌then◌else◌, length, drop,
}
use qq_analyzer.Msg3.Varint.{read_varint}

-- `off = off.saturating_add(n)`, and the test that `off` has not passed the end.
abbrev pub advance : ℕ → List ℕ → Option (List ℕ)
advance n rest = if ltb (length rest) n then none else some (drop n rest)

abbrev pub skip_sized : Option ℕ × List ℕ → Option (List ℕ)
skip_sized (none, rest) = none
skip_sized (some n, rest) = advance n rest

abbrev pub skip_number : Option ℕ × List ℕ → Option (List ℕ)
skip_number (none, rest) = none
skip_number (some n, rest) = some rest

-- The bytes behind the value of a field with the given wire type.
unfoldable pub skip_value : ℕ → List ℕ → Option (List ℕ)
skip_value wire rest =
    if wire == 0
    then skip_number (read_varint rest)
    else if wire == 1
    then advance 8 rest
    else if wire == 2
    then skip_sized (read_varint rest)
    else if wire == 5
    then advance 4 rest
    else none

abbrev pub skip_keyed : Option ℕ × List ℕ → Option (List ℕ)
skip_keyed (none, rest) = none
skip_keyed (some key, rest) =
    if key == 0
    then none
    else if key / 8 == 0 || ltb 0x10000 (key / 8)
    then none
    else skip_value (key % 8) rest

-- One round: the bytes behind the field, or `none` for `return false`.
unfoldable pub skip_field : List ℕ → Option (List ℕ)
skip_field rest = skip_keyed (read_varint rest)

-- `left` is 12 less the fields seen.
unfoldable pub proto_loop : ℕ → ℕ → List ℕ → Bool
proto_loop left fields [] = ltb 0 fields
proto_loop zero fields (b ∷ rest) = false
proto_loop (suc left) fields (b ∷ rest) = elim (skip_field (b ∷ rest)) [
  | none ↦ false
  | some rest' ↦ proto_loop left (fields + 1) rest'
]

unfoldable pub looks_like_proto : List ℕ → Bool
looks_like_proto bytes = if ltb (length bytes) 2 then false else proto_loop 12 0 bytes
