-- ===== src/Msg3/ProtoStrings.antt =====
-- `collect_proto_strings`: the readable strings of a protobuf message and of those nested in it.
use qq_analyzer.Base.{
  ℕ, zero, suc, ◌+◌, ◌-◌, ◌%◌, List, [], ◌∷◌, ◌++◌, Option, none, some, ◌||◌, ltb, leb, within,
  ◌==◌, if◌then◌else◌, length, take, drop,
}
use qq_analyzer.Text.{Text}
use qq_analyzer.Msg3.Outcome.{
  Outcome, done, panicked, Round, leave, go_on, fault, follow, usize_limit,
}
use qq_analyzer.Msg3.Texts.{valid_utf8_text, is_generic_token}
use qq_analyzer.Msg3.Varint.{read_varint}

abbrev pub push_readable : Option Text → List Text → List Text
push_readable none out = out
push_readable (some text) out = if is_generic_token text then out else out ++ (text ∷ [])

abbrev pub push_string : List ℕ → List Text → List Text
push_string bytes out =
    if within 3 300 (length bytes) then push_readable (valid_utf8_text bytes) out else out

-- `off` and `off + n` are sums in `usize`: a length that overflows them panics, either in the sum
-- or, where the sum wraps, in the slice whose end then lies before its start.
module _ (nested : List ℕ → List Text → Outcome (List Text)) (total : ℕ) where
  abbrev pub after_nested : List ℕ → Outcome (List Text) → Round (List Text)
  after_nested rest (done out) = go_on rest out
  after_nested rest panicked = fault

  abbrev pub take_sized : Option ℕ × List ℕ → List Text → Round (List Text)
  take_sized (none, rest) out = leave out
  take_sized (some n, rest) out =
      if leb usize_limit (total - length rest + n)
      then fault
      else if ltb (length rest) n
      then leave out
      else after_nested (drop n rest) (nested (take n rest) (push_string (take n rest) out))

  abbrev pub take_number : Option ℕ × List ℕ → List Text → Round (List Text)
  take_number (none, rest) out = leave out
  take_number (some v, rest) out = go_on rest out

  abbrev pub take_fixed : ℕ → List ℕ → List Text → Round (List Text)
  take_fixed n rest out = if ltb (length rest) n then leave out else go_on (drop n rest) out

  abbrev pub take_keyed : Option ℕ × List ℕ → List Text → Round (List Text)
  take_keyed (none, rest) out = leave out
  take_keyed (some key, rest) out =
      if key == 0
      then leave out
      else if key % 8 == 0
      then take_number (read_varint rest) out
      else if key % 8 == 1
      then take_fixed 8 rest out
      else if key % 8 == 2
      then take_sized (read_varint rest) out
      else if key % 8 == 5
      then take_fixed 4 rest out
      else leave out

  unfoldable pub strings_round : List ℕ → List Text → Round (List Text)
  strings_round rest out = take_keyed (read_varint rest) out

  -- `left` is 80 less the fields seen.
  unfoldable pub strings_loop : ℕ → List ℕ → List Text → Outcome (List Text)
  strings_loop left [] out = done out
  strings_loop zero (b ∷ rest) out = done out
  strings_loop (suc left) (b ∷ rest) out = follow (strings_round (b ∷ rest) out) (strings_loop left)

-- `levels` is 3 less the depth.
unfoldable pub strings_at : ℕ → List ℕ → List Text → Outcome (List Text)
strings_at zero bytes out = done out
strings_at (suc levels) bytes out =
    if ltb (length bytes) 2 || ltb 200 (length out)
    then done out
    else strings_loop (strings_at levels) (length bytes) 80 bytes out

unfoldable pub collect_proto_strings : List ℕ → ℕ → List Text → Outcome (List Text)
collect_proto_strings bytes depth out = strings_at (3 - depth) bytes out
