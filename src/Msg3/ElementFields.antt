-- ===== src/Msg3/ElementFields.antt =====
-- `parse_fields` of msg3_parser.rs: which bytes the fields are.
use qq_analyzer.Base.{
  ℕ, zero, suc, ◌≤◌, ◌<◌, List, [], ◌∷◌, ◌++◌, ◌||◌, ltb, length, take, drop, byte_at, le16, put16,
  IsByte, IsBytes, All, All-drop, take-append-drop, length-drop, length-take, Bool-cases, ◌≡◌, ◌⊎◌,
  inl, inr, refl, sym, ap, ap₂, ◌∙◌, arith,
}
use qq_analyzer.Msg3.Elements.{Field, make_field, fields_from, parse_fields}
use qq_analyzer.TxData.Layout.{put16-le16}

-- The bytes of fields, then the rest: the id, the length in two bytes, the value.
abbrev pub put_all : List Field → List ℕ → List ℕ
put_all [] rest = rest
put_all (f ∷ fs) rest = f.id ∷ put16 (length f.value) (f.value ++ put_all fs rest)

-- The bytes at which the fields end: too few for a header, or for the value that is declared.
abbrev pub IsEnd : List ℕ → Type 0
IsEnd rest = (length rest < 3) ⊎ (length (drop 3 rest) < le16 (drop 1 rest))

-- The fields stand at the front of the payload and are made of their bytes; behind them no field
-- can be read.
pub record IsParsed (t : ℕ) (payload : List ℕ) (fields : List Field) : Type 0 where
  pub rest : List ℕ
  pub at_front : payload ≡ put_all fields rest
  pub made : All (λ f. f ≡ make_field t f.id f.value) fields
  pub ends : IsEnd rest

header_of :
    (rest : List ℕ)
    → IsBytes rest
    → 3 ≤ length rest
    → rest ≡ byte_at rest 0 ∷ put16 (le16 (drop 1 rest)) (drop 3 rest)
header_of [] bytes h = absurd (omega arith)
header_of (a ∷ []) bytes h = absurd (omega arith)
header_of (a ∷ b ∷ []) bytes h = absurd (omega arith)
header_of (a ∷ b ∷ c ∷ rest) bytes h =
    ap (λ t. a ∷ t) (sym (put16-le16 b c rest bytes.1.0 bytes.1.1.0))

field_front :
    (rest : List ℕ) (n : ℕ) {tail : List ℕ}
    → n ≡ le16 (drop 1 rest)
    → n ≤ length (drop 3 rest)
    → rest ≡ byte_at rest 0 ∷ put16 (le16 (drop 1 rest)) (drop 3 rest)
    → drop n (drop 3 rest) ≡ tail
    → rest ≡ byte_at rest 0 ∷ put16 (length (take n (drop 3 rest))) (take n (drop 3 rest) ++ tail)
field_front rest n {tail} en fits layout behind =
    let len : le16 (drop 1 rest) ≡ length (take n (drop 3 rest)) =
      omega (arith, en, fits, length-take n (drop 3 rest)) in
    layout
    ∙ ap₂ (λ m (t : List ℕ). byte_at rest 0 ∷ put16 m t) len
        (sym (take-append-drop n (drop 3 rest)) ∙ ap (λ t. take n (drop 3 rest) ++ t) behind)

fields_from-IsParsed :
    (t fuel : ℕ) (rest : List ℕ)
    → IsBytes rest
    → length rest ≤ fuel
    → IsParsed t rest (fields_from t fuel rest)
unfolding fields_from
fields_from-IsParsed t zero rest bytes h = record {
  rest = rest;
  at_front = refl;
  made = tt;
  ends = inl (omega arith);
}
fields_from-IsParsed t (suc fuel) rest bytes h =
    elim (Bool-cases (ltb (length rest) 3 || ltb (length (drop 3 rest)) (le16 (drop 1 rest)))) [
      | inl stop ↦
          rw (stop, fields_from)
            (record { rest = rest; at_front = refl; made = tt; ends = ground arith })
      | inr go ↦
          let n = le16 (drop 1 rest) in
          let header : 3 ≤ length rest = ground arith in
          let fits : n ≤ length (drop 3 rest) = ground arith in
          let more =
            fields_from-IsParsed t fuel (drop n (drop 3 rest))
              (All-drop IsByte n (drop 3 rest) (All-drop IsByte 3 rest bytes))
              (omega (arith, header, length-drop 3 rest, length-drop n (drop 3 rest))) in
          rw (go, fields_from)
            (record {
              rest = more.rest;
              at_front = field_front rest n refl fits (header_of rest bytes header) more.at_front;
              made = (refl, more.made);
              ends = more.ends;
            })
    ]

-- The fields of an element, written one after the other, are the front of its payload; each has the
-- name and the text of its bytes; and no field can be read from the bytes behind them.
pub parse_fields-IsParsed :
    (t : ℕ) (payload : List ℕ) → IsBytes payload → IsParsed t payload (parse_fields t payload)
unfolding parse_fields
parse_fields-IsParsed t payload bytes =
    fields_from-IsParsed t (length payload) payload bytes (omega arith)
