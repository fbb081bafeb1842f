-- ===== src/Msg3/FrameLayout.antt =====
-- `td_record_len` of msg3_parser.rs and the TXData record in the bytes it measures.
use mathlib.Core.List.{append_assoc}
use qq_analyzer.Base.{
  ℕ, zero, suc, ◌+◌, ◌-◌, ◌≤◌, List, [], ◌∷◌, ◌++◌, map, some, Bool, true, length, take, drop,
  slice, le16, put16, put32, IsByte, IsBytes, All, All-drop, drop-drop, length-drop, length-append,
  take-length, ◌≡◌, refl, sym, ap, ◌∙◌, arith, ◌⊎◌, inl, inr, Option-cases,
}
use qq_analyzer.Text.{Text, starts_with}
use qq_analyzer.TxData.Fields.{decode_txdata_fields}
use qq_analyzer.TxData.Layout.{
  RawField, Fits, put_field, put_fields, interpret, put_field-read_field,
}
use qq_analyzer.TxData.Record.{put_record, le16_front, decode-put_record}
use qq_analyzer.Msg3.FrameRead.{field_taken}
use qq_analyzer.Msg3.Frames.{td_marker, td_field_len, td_fields_end, td_len_of, td_record_len}

pub length-put_field :
    (f : RawField) (rest : List ℕ)
    → length (put_field f rest) ≡ 7 + length f.raw_name + length f.value + length rest
length-put_field f rest = omega (
  arith,
  length-append f.raw_name (put32 (length f.value) (f.value ++ rest)),
  length-append f.value rest,
)

-- What the loop passes over is a list of fields.
record IsPassed (k : ℕ) (rest : List ℕ) (pos q : ℕ) : Type 0 where
  raw : List RawField
  fits : All Fits raw
  counted : length raw ≡ k
  tail : List ℕ
  at_front : rest ≡ put_fields raw tail
  moved : q + length tail ≡ pos + length rest

-- Fields before a rest are the fields, then the rest.
pub put_fields-append :
    (fs : List RawField) (rest : List ℕ) → put_fields fs rest ≡ put_fields fs [] ++ rest
put_fields-append [] rest = refl
put_fields-append (f ∷ fs) rest = simp (append_assoc, put_fields-append fs rest)

fields_end_some :
    (k : ℕ) (rest : List ℕ) (pos w : ℕ)
    → td_field_len rest ≡ some w
    → td_fields_end k (drop w rest) (pos + w) ≡ td_fields_end (suc k) rest pos
unfolding td_fields_end
fields_end_some k rest pos w e = rw (e, td_fields_end)

len_cases :
    (rest : List ℕ) (n : ℕ)
    → td_len_of rest ≡ some n
    → (6 ≤ length rest)
      × (starts_with td_marker rest ≡ true)
      × (((le16 (drop 4 rest) ≡ 0) × (n ≡ 6))
          ⊎ ((le16 (drop 4 rest) ≤ 200)
              × (td_fields_end (le16 (drop 4 rest)) (drop 6 rest) 6 ≡ some n)))
len_cases rest n e = ground arith

frame_payload :
    (bytes : List ℕ) (start n : ℕ) {p : List ℕ} (tail : List ℕ)
    → drop 4 (drop start bytes) ≡ p ++ tail
    → n ≡ 4 + length p
    → slice (start + 4) (start + n) bytes ≡ p
frame_payload bytes start n {p} tail e total =
    let width : start + n - (start + 4) ≡ length p = omega arith in
    rw width (ap (take (length p)) (sym (drop-drop start 4 bytes) ∙ e) ∙ take-length p tail)

module _ (gb18030 : List ℕ → Text × Bool) where
  fields_end-IsPassed :
      (k : ℕ) (rest : List ℕ) (pos q : ℕ)
      → IsBytes rest
      → td_fields_end k rest pos ≡ some q
      → IsPassed k rest pos q
  fields_end-IsPassed zero rest pos q bytes e =
      unfold td_fields_end in
      record {
        raw = [];
        fits = tt;
        counted = refl;
        tail = rest;
        at_front = refl;
        moved = ground arith;
      }
  fields_end-IsPassed (suc k) rest pos q bytes e = elim (Option-cases (td_field_len rest)) [
    | inl none_here ↦ unfold td_fields_end in ground arith
    | inr (w, ew) ↦
        let (er, hw) = field_taken gb18030 rest w ew in
        let (f, fits, layout, _) = put_field-read_field gb18030 rest bytes er in
        let passed =
          fields_end-IsPassed k (drop w rest) (pos + w) q (All-drop IsByte w rest bytes)
            (fields_end_some k rest pos w ew ∙ e) in
        record {
          raw = f ∷ passed.raw;
          fits = (fits, passed.fits);
          counted = ap suc passed.counted;
          tail = passed.tail;
          at_front = layout ∙ ap (put_field f) passed.at_front;
          moved = omega (arith, passed.moved, length-drop w rest);
        }
  ]

  -- The bytes of a record that has a length, behind the first four bytes of its marker.
  pub record IsFramed (rest : List ℕ) (n : ℕ) : Type 0 where
    pub raw : List RawField
    pub fits : All Fits raw
    pub at_most : length raw ≤ 200
    pub tail : List ℕ
    pub at_front : drop 4 rest ≡ put_record raw ++ tail
    pub total : n ≡ 4 + length (put_record raw)
    pub marked : starts_with td_marker rest ≡ true

  framed :
      (rest : List ℕ) (n k : ℕ)
      → 6 ≤ length rest
      → starts_with td_marker rest ≡ true
      → k ≤ 200
      → put16 k (drop 2 (drop 4 rest)) ≡ drop 4 rest
      → IsPassed k (drop 6 rest) 6 n
      → IsFramed rest n
  framed rest n k h6 marked few front p = record {
    raw = p.raw;
    fits = p.fits;
    at_most = omega (arith, p.counted);
    tail = p.tail;
    at_front =
        sym front
        ∙ ap (put16 k) (drop-drop 4 2 rest ∙ p.at_front ∙ put_fields-append p.raw p.tail)
        ∙ ap (λ m. put16 m (put_fields p.raw []) ++ p.tail) (sym p.counted);
    total = omega (
      arith,
      p.moved,
      ap length p.at_front,
      ap length (put_fields-append p.raw p.tail),
      length-append (put_fields p.raw []) p.tail,
    );
    marked = marked;
  }

  len_of-IsFramed :
      (rest : List ℕ) (n : ℕ) → IsBytes rest → td_len_of rest ≡ some n → IsFramed rest n
  len_of-IsFramed rest n bytes e =
      let (h6, marked, cases) = len_cases rest n e in
      let b : List ℕ = drop 4 rest in
      let front = le16_front b (All-drop IsByte 4 rest bytes) (omega (arith, length-drop 4 rest)) in
      elim cases [
        | inl (no_fields, end) ↦ record {
          raw = [];
          fits = tt;
          at_most = omega arith;
          tail = drop 2 b;
          at_front = sym front ∙ ap (λ k. put16 k (drop 2 b)) no_fields;
          total = end;
          marked = marked;
        }
        | inr (few, end) ↦
            framed rest n (le16 b) h6 marked few front
              (fields_end-IsPassed (le16 b) (drop 6 rest) 6 n (All-drop IsByte 6 rest bytes) end)
      ]

  -- If the record at `start` has the length `n`, the bytes behind the marker are a complete record
  -- of at most 200 fields, of which none is lost.
  pub td_record_len-complete :
      (bytes : List ℕ) (start n : ℕ)
      → IsBytes bytes
      → td_record_len bytes start ≡ some n
      → (fs : List RawField) × (length fs ≤ 200)
        × (slice (start + 4) (start + n) bytes ≡ put_record fs)
        × (decode_txdata_fields gb18030 (slice (start + 4) (start + n) bytes)
            ≡ record { count = length fs; complete = true; fields = map (interpret gb18030) fs })
  unfolding td_record_len
  td_record_len-complete bytes start n ok e =
      let f = len_of-IsFramed (drop start bytes) n (All-drop IsByte start bytes ok) e in
      let payload : slice (start + 4) (start + n) bytes ≡ put_record f.raw =
        frame_payload bytes start n f.tail f.at_front f.total in
      (
        f.raw,
        f.at_most,
        payload,
        ap (decode_txdata_fields gb18030) payload
            ∙ decode-put_record gb18030 f.raw f.at_most f.fits,
      )
