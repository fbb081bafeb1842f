-- ===== src/Text/Find.antt =====
-- `str::find` and what else the display code uses of texts.
use qq_analyzer.Base.{
  ℕ, suc, ◌+◌, List, [], ◌∷◌, ◌++◌, Option, none, some, Bool, true, ◌||◌, ◌==◌, within,
  if◌then◌else◌, length, take, drop, any, ◌≡◌, refl, arith,
}
use qq_analyzer.Text.{Text, lit, is_empty, starts_with, trim}

abbrev one_more : Option ℕ → Option ℕ
one_more none = none
one_more (some i) = some (suc i)

-- The place of the first occurrence, counted in characters.
unfoldable pub find : Text → Text → Option ℕ
find needle [] = if is_empty needle then some 0 else none
find needle (c ∷ cs) =
    let more = one_more (find needle cs) in if starts_with needle (c ∷ cs) then some 0 else more

-- The text behind the first occurrence.
abbrev pub behind_found : Text → Text → Option ℕ → Option Text
behind_found needle text none = none
behind_found needle text (some i) = some (drop (i + length needle) text)

abbrev pub before_found : Text → Option ℕ → Option Text
before_found text none = none
before_found text (some i) = some (take i text)

-- The first text that passes the test, or the empty one.
abbrev pub first_where : (Text → Bool) → List Text → Text
first_where p [] = []
first_where p (t ∷ ts) = let rest = first_where p ts in if p t then t else rest

abbrev pub is_blank : Text → Bool
is_blank text = is_empty (trim text)

-- The first text unless it is empty, else the second.
abbrev pub or_text : Text → Text → Text
or_text [] other = other
or_text (c ∷ cs) other = c ∷ cs

-- `lines.join("\n")`.
abbrev pub join_lines : List Text → Text
join_lines [] = []
join_lines (t ∷ []) = t
join_lines (t ∷ u ∷ ts) = t ++ 10 ∷ join_lines (u ∷ ts)

abbrev pub bracketed : Text → Text
bracketed text = lit "[" ++ text ++ lit "]"

abbrev pub is_ascii_punctuation : ℕ → Bool
is_ascii_punctuation c = within 33 47 c || within 58 64 c || within 91 96 c || within 123 126 c

abbrev pub replacement : ℕ
replacement = 0xfffd

abbrev pub is_garbled : Text → Bool
is_garbled = any (λ c. c == replacement)

pub starts_with-append :
    (p text rest : List ℕ) → starts_with p text ≡ true → starts_with p (text ++ rest) ≡ true
starts_with-append [] text rest h = refl
starts_with-append (c ∷ p) [] rest h = absurd (ground arith)
starts_with-append (c ∷ p) (b ∷ text) rest h =
    let more = starts_with-append p text rest in ground (arith, more)
