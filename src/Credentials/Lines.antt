-- ===== src/Credentials/Lines.antt =====
-- The lines of a file that credentials.rs appends to.
use qq_analyzer.Base.{
  ℕ, List, [], ◌∷◌, ◌++◌, Bool, true, false, not, ◌==◌, all, Bool-cases, ◌≡◌, inl, inr, refl, sym,
  ap, ◌∙◌, arith,
}
use qq_analyzer.Text.{Text}
use qq_analyzer.Credentials.Store.{join_line, file_lines}

-- The file is empty, or its last line ends with a newline.
abbrev pub is_closed : Text → Bool
is_closed [] = true
is_closed (c ∷ []) = c == 10
is_closed (c ∷ d ∷ cs) = is_closed (d ∷ cs)

abbrev pub is_one_line : Text → Bool
is_one_line = all (λ c. not (c == 10))

file_lines-newline :
    (c : ℕ) (cs : Text) → (c == 10) ≡ true → file_lines (c ∷ cs) ≡ [] ∷ file_lines cs
unfolding file_lines
file_lines-newline c cs e = rw e refl

file_lines-other :
    (c : ℕ) (cs : Text) → (c == 10) ≡ false → file_lines (c ∷ cs) ≡ join_line c (file_lines cs)
unfolding file_lines
file_lines-other c cs e = rw e refl

-- A text followed by a newline is one line.
pub file_lines-line :
    (line : Text) → is_one_line line ≡ true → file_lines (line ++ 10 ∷ []) ≡ line ∷ []
unfolding file_lines
file_lines-line [] h = refl
file_lines-line (c ∷ cs) h =
    let other : (c == 10) ≡ false = ground arith in
    let more : is_one_line cs ≡ true = ground arith in
    file_lines-other c (cs ++ 10 ∷ []) other ∙ ap (join_line c) (file_lines-line cs more)

join_line-append :
    (c d : ℕ) (cs : Text) (more : List Text)
    → join_line c (file_lines (d ∷ cs) ++ more) ≡ join_line c (file_lines (d ∷ cs)) ++ more
join_line-append c d cs more = elim (Bool-cases (d == 10)) [
  | inl ends ↦ rw (file_lines-newline d cs ends) refl
  | inr other ↦ rw (file_lines-other d cs other) (joined (file_lines cs))
]
  where
    joined :
        (lines : List Text)
        → join_line c (join_line d lines ++ more) ≡ join_line c (join_line d lines) ++ more
    joined [] = refl
    joined (line ∷ lines) = refl

-- Behind a closed file, further text makes lines of its own.
pub file_lines-append :
    (file more : Text)
    → is_closed file ≡ true
    → file_lines (file ++ more) ≡ file_lines file ++ file_lines more
file_lines-append [] more h = unfold file_lines in refl
file_lines-append (c ∷ []) more h =
    rw (file_lines-newline c more h, file_lines-newline c [] h) (unfold file_lines in refl)
file_lines-append (c ∷ d ∷ cs) more h = elim (Bool-cases (c == 10)) [
  | inl ends ↦
      file_lines-newline c (d ∷ cs ++ more) ends
      ∙ ap (λ t. [] ∷ t) (file_lines-append (d ∷ cs) more h)
      ∙ ap (λ t. t ++ file_lines more) (sym (file_lines-newline c (d ∷ cs) ends))
  | inr other ↦
      file_lines-other c (d ∷ cs ++ more) other
      ∙ ap (join_line c) (file_lines-append (d ∷ cs) more h)
      ∙ join_line-append c d cs (file_lines more)
      ∙ ap (λ t. t ++ file_lines more) (sym (file_lines-other c (d ∷ cs) other))
]
