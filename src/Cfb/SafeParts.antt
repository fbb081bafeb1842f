-- ===== src/Cfb/SafeParts.antt =====
-- `safe_part` of cfb.rs: the names it gives.
use mathlib.Core.List.{reverse, reverse_aux, reverse-reverse}
use qq_analyzer.Base.{
  ℕ, ◌≤◌, [], ◌∷◌, map, Bool, true, false, ◌||◌, ltb, length, take, length-take, All, All-take,
  Bool-cases, ltb→lt, ltb→le, ◌≡◌, ◌≢◌, ◌⊎◌, inl, inr, refl, sym, ap, ◌∙◌, arith,
}
use qq_analyzer.Text.{Text, lit, is_whitespace, trim, trim_end_by, trim_start_by}
use qq_analyzer.Cfb.Paths.{
  is_control, is_reserved, safe_char, is_dot_or_space, or_underscore, safe_part,
}

-- A character that is no control character and none of the reserved ones, slashes among them.
abbrev pub IsClean : ℕ → Type 0
IsClean c = (is_control c || is_reserved c) ≡ false

-- A file name that stays in its folder: not empty, of at most 180 characters, clean, no dot name.
pub record IsSafe (part : Text) : Type 0 where
  pub nonempty : 1 ≤ length part
  pub short : length part ≤ 180
  pub clean : All IsClean part
  pub not_dot : part ≢ lit "."
  pub not_dots : part ≢ lit ".."

safe_char-IsClean : (c : ℕ) → IsClean (safe_char c)
safe_char-IsClean c = elim (Bool-cases (is_control c || is_reserved c)) [
  | inl bad ↦ rw bad refl
  | inr good ↦ rw good good
]

map-IsClean : (name : Text) → All IsClean (map safe_char name)
map-IsClean [] = tt
map-IsClean (c ∷ cs) = (safe_char-IsClean c, map-IsClean cs)

module _ (P : ℕ → Type 0) where
  All-trim_start : (q : ℕ → Bool) (xs : Text) → All P xs → All P (trim_start_by q xs)
  All-trim_start q [] h = tt
  All-trim_start q (x ∷ xs) h = elim (Bool-cases (q x)) [
    | inl skip ↦ rw skip (All-trim_start q xs h.1)
    | inr keep ↦ rw keep h
  ]

  All-reverse_aux : (xs ys : Text) → All P xs → All P ys → All P (reverse_aux xs ys)
  All-reverse_aux [] ys h k = k
  All-reverse_aux (x ∷ xs) ys h k = All-reverse_aux xs (x ∷ ys) h.1 (h.0, k)

  All-trim_end : (q : ℕ → Bool) (xs : Text) → All P xs → All P (trim_end_by q xs)
  All-trim_end q xs h =
      All-reverse_aux _ [] (All-trim_start q (reverse xs) (All-reverse_aux xs [] h tt)) tt

  All-trim : (xs : Text) → All P xs → All P (trim xs)
  All-trim xs h = All-trim_end is_whitespace _ (All-trim_start is_whitespace xs h)

-- What is left by a trim does not begin with what was trimmed.
trim_start-head :
    (q : ℕ → Bool) (xs : Text) {c : ℕ} {cs : Text} → trim_start_by q xs ≡ c ∷ cs → q c ≡ false
trim_start-head q [] e = absurd (ground arith)
trim_start-head q (x ∷ xs) {c} {cs} e = elim (Bool-cases (q x)) [
  | inl skip ↦ trim_start-head q xs (rw skip at e)
  | inr keep ↦ ground (arith, e)
]

-- A text whose last character is trimmed off, and which is its own trimmed form, is absurd.
no_trimmed_end :
    (q : ℕ → Bool) (xs : Text) {c : ℕ} {cs : Text}
    → reverse (trim_end_by q xs) ≡ c ∷ cs
    → q c ≡ true
    → ⊥
no_trimmed_end q xs e h =
    let head = trim_start-head q (reverse xs) (sym (reverse-reverse _) ∙ e) in
    ground (arith, head, h)

or_underscore_cases : (t : Text) → (or_underscore t ≡ lit "_") ⊎ (or_underscore t ≡ t)
or_underscore_cases [] = inl refl
or_underscore_cases (c ∷ cs) = inr refl

or_underscore-nonempty : (t : Text) → 1 ≤ length (or_underscore t)
or_underscore-nonempty [] = omega arith
or_underscore-nonempty (c ∷ cs) = omega arith

or_underscore-IsClean : (t : Text) → All IsClean t → All IsClean (or_underscore t)
or_underscore-IsClean [] h = (refl, tt)
or_underscore-IsClean (c ∷ cs) h = h

-- Neither the name `_` nor a text without a dot at its end is a dot name.
not_dots_lem :
    (xs : Text) (name : Text) {cs : Text}
    → reverse name ≡ b'.' ∷ cs
    → (name ≡ lit "_" → ⊥)
    → or_underscore (trim_end_by is_dot_or_space xs) ≢ name
not_dots_lem xs name e other same = elim (or_underscore_cases (trim_end_by is_dot_or_space xs)) [
  | inl under ↦ other (sym same ∙ under)
  | inr self ↦ no_trimmed_end is_dot_or_space xs (ap reverse (sym self ∙ same) ∙ e) refl
]

length_one : (s t : Text) → s ≡ t → length s ≡ length t
length_one s t e = ap length e

-- Whatever the name of a stream or a folder is, its part of the path is a plain file name.
pub safe_part-IsSafe : (name : Text) → IsSafe (safe_part name)
unfolding safe_part
safe_part-IsSafe name =
    let trimmed = trim (map safe_char name) in
    let safe = or_underscore (trim_end_by is_dot_or_space trimmed) in
    let clean : All IsClean safe = or_underscore-IsClean (trim_end_by is_dot_or_space trimmed) (
      All-trim_end IsClean is_dot_or_space trimmed
        (All-trim IsClean (map safe_char name) (map-IsClean name))) in
    let some_text = or_underscore-nonempty (trim_end_by is_dot_or_space trimmed) in
    elim (Bool-cases (ltb 180 (length safe))) [
      | inl long ↦
          let cut : length (take 180 safe) ≡ 180 =
            omega (arith, length-take 180 safe, ltb→lt 180 (length safe) long) in
          rw long (record {
            nonempty = omega (arith, cut);
            short = omega (arith, cut);
            clean = All-take IsClean 180 safe clean;
            not_dot = λ e. absurd (omega (arith, cut, length_one (take 180 safe) (lit ".") e));
            not_dots = λ e. absurd (omega (arith, cut, length_one (take 180 safe) (lit "..") e));
          })
      | inr fits ↦ rw fits (record {
        nonempty = some_text;
        short = ltb→le 180 (length safe) fits;
        clean = clean;
        not_dot = not_dots_lem trimmed (lit ".") refl (λ e. ground (arith, e));
        not_dots = not_dots_lem trimmed (lit "..") refl (λ e. ground (arith, e));
      })
    ]
