-- ===== src/Message/Runs.antt =====
-- Runs of UTF-16 text inside a payload: `utf16le_text_runs`, `utf16le_embedded_strings` and
-- `rich_context_text` of msg3_parser.rs.
use qq_analyzer.Base.{
  ℕ, zero, suc, ◌+◌, ◌*◌, List, [], ◌∷◌, ◌++◌, Option, none, some, Bool, true, false, not, ◌&&◌,
  ◌||◌, ltb, leb, max, within, ◌==◌, if◌then◌else◌, length, drop, any, all,
}
use qq_analyzer.Text.{
  Text, lit, is_empty, member, contains, text_eq, trim, trim_start_by, trim_end_by, is_whitespace,
}
use qq_analyzer.Text.Utf16.{from_utf16}
use qq_analyzer.Text.Find.{first_where, is_ascii_punctuation, join_lines}
use qq_analyzer.Msg3.Texts.{reasonable_field_text}
use qq_analyzer.Msg3.Elements.{Field}
use qq_analyzer.Message.Element.{Element, is_nil}

-- The units at the front that pass the test.
abbrev run_units : (ℕ → Bool) → List ℕ → List ℕ
run_units printable [] = []
run_units printable (a ∷ []) = []
run_units printable (a ∷ b ∷ rest) =
    let more = run_units printable rest in
    let w = a + 256 * b in if printable w then w ∷ more else []

-- The loop over the starts, which both functions share: a run of `min_units` units is passed over,
-- and its text, where it decodes, is given to `push`.
module _ {A : Type 0} (printable : ℕ → Bool) (min_units : ℕ) (push : ℕ → Text → A → A) where
  abbrev push_decoded : ℕ → Option Text → A → A
  push_decoded start none out = out
  push_decoded start (some text) out = push start text out

  abbrev runs_loop : ℕ → ℕ → List ℕ → A → A
  runs_loop zero start rest out = out
  runs_loop (suc fuel) start rest out =
      let units = run_units printable rest in
      let passed = max (2 * length units) 2 in
      elim (ltb (length rest) 2) [
        | true ↦ out
        | false ↦ elim (leb min_units (length units)) [
          | true ↦
              runs_loop fuel (start + passed) (drop passed rest)
                (push_decoded start (from_utf16 units) out)
          | false ↦ runs_loop fuel (start + 1) (drop 1 rest) out
        ]
      ]

abbrev is_run_unit : ℕ → Bool
is_run_unit w =
    w == 9 || w == 10 || w == 13 || w == 0x20 || within 0x2d 0xd7ff w || within 0xe000 0xfffd w

abbrev push_run : ℕ → Text → List Text → List Text
push_run start text out =
    if reasonable_field_text (trim text) && not (member (trim text) out)
    then out ++ (trim text ∷ [])
    else out

unfoldable pub utf16le_text_runs : List ℕ → ℕ → List Text
utf16le_text_runs bytes min_units =
    runs_loop is_run_unit min_units push_run (length bytes) 0 bytes []

abbrev is_embedded_unit : ℕ → Bool
is_embedded_unit w = w == 9 || w == 10 || w == 13 || (leb 0x20 w && ltb w 0xd800) || leb 0xe000 w

abbrev is_nul : ℕ → Bool
is_nul c = c == 0

abbrev visible_part : Text → Text
visible_part text = trim (trim_end_by is_nul (trim_start_by is_nul text))

abbrev push_embedded : ℕ → Text → List (ℕ × Text) → List (ℕ × Text)
push_embedded start text out =
    if not (is_empty (visible_part text)) && not (any (λ p. text_eq p.1 (visible_part text)) out)
    then out ++ ((start, visible_part text) ∷ [])
    else out

unfoldable pub utf16le_embedded_strings : List ℕ → ℕ → List (ℕ × Text)
utf16le_embedded_strings bytes min_units =
    runs_loop is_embedded_unit min_units push_embedded (length bytes) 0 bytes []

abbrev is_bare_run : Text → Bool
is_bare_run trimmed =
    is_empty trimmed
    || contains (60 ∷ 36 ∷ 0x1ff ∷ []) trimmed
    || all (λ c. is_ascii_punctuation c || is_whitespace c) trimmed
    || ltb (length trimmed) 8

abbrev useful_runs : List Text → List Text
useful_runs [] = []
useful_runs (t ∷ ts) =
    let more = useful_runs ts in if is_bare_run (trim t) then more else trim t ∷ more

abbrev display_texts : List Field → List Text
display_texts [] = []
display_texts (f ∷ fs) =
    let more = display_texts fs in
    if text_eq f.name (lit "display_text") then trim f.text ∷ more else more

abbrev context_or_runs : Text → Element → Text
context_or_runs [] e =
    if not (is_nil e.fields) then [] else join_lines (useful_runs (utf16le_text_runs e.payload 8))
context_or_runs (c ∷ cs) e = c ∷ cs

unfoldable pub rich_context_text : Element → Text
rich_context_text e =
    context_or_runs
      (first_where (λ t. not (is_empty t) && reasonable_field_text t) (display_texts e.fields)) e
