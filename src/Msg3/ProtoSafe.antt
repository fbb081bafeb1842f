-- ===== src/Msg3/ProtoSafe.antt =====
-- `collect_proto_fields` and `looks_like_proto` of msg3_parser.rs together.
use qq_analyzer.Base.{
  ℕ, zero, suc, ◌+◌, ◌-◌, ◌%◌, ◌<◌, ◌≤◌, List, [], ◌∷◌, Option, none, some, true, false, not, ◌||◌,
  ltb, leb, ◌==◌, length, take, drop, length-drop, length-take, ◌≡◌, refl, ◌∙◌, arith, inl, inr,
  Bool-cases, Option-cases, le→ltb,
}
use qq_analyzer.Text.{Text}
use qq_analyzer.Msg3.Outcome.{Outcome, done, panicked, follow-IsDone, usize_limit, IsDone, GoesOn}
use qq_analyzer.Msg3.Varint.{read_varint, read_varint-IsRead}
use qq_analyzer.Msg3.Proto.{
  looks_like_proto, proto_loop, skip_field, skip_value, skip_sized, skip_number, skip_keyed,
  advance,
}
use qq_analyzer.Msg3.ProtoFields.{
  ProtoField, fields_round, fields_loop, fields_at, collect_proto_fields, item_of, item_fixed,
  item_sized, push_item, with_nested, item_keyed, short_text, keyed_item,
}

skip_sized-shorter :
    (r : Option ℕ × List ℕ) (rest : List ℕ) → skip_sized r ≡ some rest → length rest ≤ length r.1
skip_sized-shorter (none, rest) rest' e = cc
skip_sized-shorter (some n, rest) rest' e = ground (arith, length-drop n rest)

skip_number-shorter :
    (r : Option ℕ × List ℕ) (rest : List ℕ) → skip_number r ≡ some rest → length rest ≤ length r.1
skip_number-shorter (none, rest) rest' e = cc
skip_number-shorter (some n, rest) rest' e = ground arith

skip_value-shorter :
    (wire : ℕ) (rest rest' : List ℕ)
    → skip_value wire rest ≡ some rest'
    → length rest' ≤ length rest
unfolding skip_value
skip_value-shorter wire rest rest' e = ground (
  arith,
  (read_varint-IsRead rest).within,
  length-drop 8 rest,
  length-drop 4 rest,
  skip_sized-shorter (read_varint rest) rest',
  skip_number-shorter (read_varint rest) rest',
)

skip_keyed-shorter :
    (r : Option ℕ × List ℕ) (rest : List ℕ) → skip_keyed r ≡ some rest → length rest ≤ length r.1
skip_keyed-shorter (none, rest) rest' e = cc
skip_keyed-shorter (some key, rest) rest' e =
    ground (arith, skip_value-shorter (key % 8) rest rest')

read_some :
    (r : Option ℕ × List ℕ) (rest : List ℕ) → skip_keyed r ≡ some rest → (v : ℕ) × (r.0 ≡ some v)
read_some (none, rest) rest' e = cc
read_some (some key, rest) rest' e = (key, refl)

pub skip_field-shorter :
    (rest rest' : List ℕ) → skip_field rest ≡ some rest' → length rest' < length rest
unfolding skip_field
skip_field-shorter rest rest' e =
    let (v, ev) = read_some (read_varint rest) rest' e in
    omega
      (arith, skip_keyed-shorter (read_varint rest) rest' e, (read_varint-IsRead rest).shorter v ev)

proto_loop-some :
    (left seen b : ℕ) (bs rest' : List ℕ)
    → skip_field (b ∷ bs) ≡ some rest'
    → proto_loop left (seen + 1) rest' ≡ proto_loop (suc left) seen (b ∷ bs)
unfolding proto_loop
proto_loop-some left seen b bs rest' e = rw (e, proto_loop)

-- A nested collection that never panics.
module _ (nested : List ℕ → Text → List ProtoField → Outcome (List ProtoField)) (total : ℕ)
    (safe : (bytes : List ℕ) (path : Text) (out : List ProtoField)
      → length bytes < usize_limit
      → IsDone (nested bytes path out))
    (small : total < usize_limit) where
  push_item-GoesOn :
      (rest : List ℕ) (item : ProtoField) (o : Outcome (List ProtoField))
      → IsDone o
      → GoesOn rest (push_item nested total rest item o)
  push_item-GoesOn rest item (done out) h = refl
  push_item-GoesOn rest item panicked h = elim h [ ]

  with_nested-IsDone :
      (bytes : List ℕ) (path : Text) (out : List ProtoField)
      → length bytes < usize_limit
      → IsDone (with_nested nested total bytes path out)
  with_nested-IsDone bytes path out h = elim (Bool-cases (leb (length bytes) 4096)) [
    | inl short ↦ rw short (safe bytes path out h)
    | inr long ↦ rw long tt
  ]

  in_usize :
      (n : ℕ) (rest : List ℕ)
      → length rest ≤ total
      → n ≤ length rest
      → leb usize_limit (total - length rest + n) ≡ false
  in_usize n rest h fits = ground arith

  item_sized-GoesOn :
      (item : ProtoField) (r : Option ℕ × List ℕ) (out : List ProtoField) (rest : List ℕ)
      → length r.1 ≤ total
      → skip_sized r ≡ some rest
      → GoesOn rest (item_sized nested total item r out)
  item_sized-GoesOn item (none, rest) out rest' h e = cc
  item_sized-GoesOn item (some n, rest) out rest' h e =
      let fits : n ≤ length rest = ground arith in
      let end : drop n rest ≡ rest' = ground arith in
      rw (in_usize n rest h fits, le→ltb (length rest) n fits, ← end)
        (push_item-GoesOn (drop n rest)
          (record item { bytes = take n rest; text = short_text (take n rest) })
          (with_nested nested total (take n rest) item.path out)
          (with_nested-IsDone (take n rest) item.path out (omega (arith, length-take n rest))))

  fixed :
      (n : ℕ) (item : ProtoField) (rest : List ℕ) (out : List ProtoField) (rest' : List ℕ)
      → advance n rest ≡ some rest'
      → GoesOn rest' (item_fixed nested total n item rest out)
  fixed n item rest out rest' e = ground arith

  item_of-GoesOn :
      (item : ProtoField) (rest : List ℕ) (out : List ProtoField) (rest' : List ℕ)
      → length rest ≤ total
      → skip_value item.wire rest ≡ some rest'
      → GoesOn rest' (item_of nested total item rest out)
  item_of-GoesOn item rest out rest' h e = elim (Bool-cases (item.wire == 0)) [
    | inl w0 ↦ rw w0 (unfold skip_value in ground arith)
    | inr n0 ↦ elim (Bool-cases (item.wire == 1)) [
      | inl w1 ↦ rw (n0, w1) (fixed 8 item rest out rest' (unfold skip_value in ground arith))
      | inr n1 ↦ elim (Bool-cases (item.wire == 2)) [
        | inl w2 ↦
            rw (n0, n1, w2)
              (item_sized-GoesOn item (read_varint rest) out rest'
                (omega (arith, (read_varint-IsRead rest).within))
                (unfold skip_value in ground arith))
        | inr n2 ↦ elim (Bool-cases (item.wire == 5)) [
          | inl w5 ↦
              rw (n0, n1, n2, w5) (fixed 4 item rest out rest' (unfold skip_value in ground arith))
          | inr n5 ↦ unfold skip_value in ground arith
        ]
      ]
    ]
  ]

  item_keyed-GoesOn :
      (path : Text) (r : Option ℕ × List ℕ) (out : List ProtoField) (rest' : List ℕ)
      → length r.1 ≤ total
      → skip_keyed r ≡ some rest'
      → GoesOn rest' (item_keyed nested total path r out)
  item_keyed-GoesOn path (none, rest) out rest' h e = cc
  item_keyed-GoesOn path (some key, rest) out rest' h e = elim (Bool-cases (key == 0)) [
    | inl zero_key ↦ ground arith
    | inr some_key ↦
        rw some_key (item_of-GoesOn (keyed_item path key) rest out rest' h (ground arith))
  ]

  fields_round-GoesOn :
      (path : Text) (rest : List ℕ) (out : List ProtoField) (rest' : List ℕ)
      → length rest ≤ total
      → skip_field rest ≡ some rest'
      → GoesOn rest' (fields_round nested total path rest out)
  unfolding fields_round skip_field
  fields_round-GoesOn path rest out rest' h e =
      item_keyed-GoesOn path (read_varint rest) out rest'
        (omega (arith, (read_varint-IsRead rest).within)) e

  after_round :
      (fuel left seen : ℕ) (path : Text) (b : ℕ) (bs : List ℕ) (out : List ProtoField)
      (rest' : List ℕ)
      → GoesOn rest' (fields_round nested total path (b ∷ bs) out)
      → ((out' : List ProtoField) → IsDone (fields_loop nested total fuel path rest' out'))
      → IsDone (fields_loop nested total (suc fuel) path (b ∷ bs) out)
  unfolding fields_loop
  after_round fuel left seen path b bs out rest' goes more =
      elim (Bool-cases (ltb (length out) 500)) [
        | inr full ↦ rw full tt
        | inl room ↦
            rw room (follow-IsDone (fields_round nested total path (b ∷ bs) out) _ rest' goes more)
      ]

  fields_loop-IsDone :
      (fuel left seen : ℕ) (path : Text) (rest : List ℕ) (out : List ProtoField)
      → length rest ≤ total
      → proto_loop left seen rest ≡ true
      → IsDone (fields_loop nested total fuel path rest out)
  fields_loop-IsDone fuel left seen path [] out h e = unfold fields_loop in tt
  fields_loop-IsDone zero left seen path (b ∷ bs) out h e = unfold fields_loop in tt
  fields_loop-IsDone (suc fuel) zero seen path (b ∷ bs) out h e = unfold proto_loop in cc
  fields_loop-IsDone (suc fuel) (suc left) seen path (b ∷ bs) out h e =
      elim (Option-cases (skip_field (b ∷ bs))) [
        | inl stuck ↦ unfold proto_loop in ground arith
        | inr (rest', es) ↦
            after_round fuel left seen path b bs out rest'
              (fields_round-GoesOn path (b ∷ bs) out rest' h es)
              (λ out'.
                fields_loop-IsDone fuel left (seen + 1) path rest' out'
                  (omega (arith, skip_field-shorter (b ∷ bs) rest' es))
                  (proto_loop-some left seen b bs rest' es ∙ e))
      ]

accepted_loop : (bytes : List ℕ) → looks_like_proto bytes ≡ true → proto_loop 12 0 bytes ≡ true
unfolding looks_like_proto
accepted_loop bytes e = ground arith

not_refused :
    (bytes : List ℕ) (out : List ProtoField)
    → (ltb (length bytes) 2 || ltb 500 (length out) || not (looks_like_proto bytes)) ≡ false
    → looks_like_proto bytes ≡ true
not_refused bytes out e = ground arith

fields_at-IsDone :
    (levels : ℕ) (bytes : List ℕ) (path : Text) (out : List ProtoField)
    → length bytes < usize_limit
    → IsDone (fields_at levels bytes path out)
unfolding fields_at
fields_at-IsDone zero bytes path out h = tt
fields_at-IsDone (suc levels) bytes path out h =
    let nested = fields_at-IsDone levels in
    elim (Bool-cases
      (ltb (length bytes) 2 || ltb 500 (length out) || not (looks_like_proto bytes))) [
        | inl refused ↦ rw refused tt
        | inr accepted ↦ rw accepted (
            fields_loop-IsDone (fields_at levels) (length bytes) nested h (length bytes) 12 0 path
              bytes out (omega arith) (accepted_loop bytes (not_refused bytes out accepted)))
      ]

-- On any input that fits the address space, at any depth, the collection returns: it never panics.
pub collect_proto_fields-IsDone :
    (bytes : List ℕ) (depth : ℕ) (path : Text) (out : List ProtoField)
    → length bytes < usize_limit
    → IsDone (collect_proto_fields bytes depth path out)
unfolding collect_proto_fields
collect_proto_fields-IsDone bytes depth path out h = fields_at-IsDone (4 - depth) bytes path out h
