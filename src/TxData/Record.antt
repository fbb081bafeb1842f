-- ===== src/TxData/Record.antt =====
-- Whole TXData records: what `decode_txdata_fields` accepts, and what it returns.
use mathlib.Core.List.{append-nil, append_assoc}
use qq_analyzer.Base.{
  ◌&&◌, ℕ, zero, suc, ◌<◌, ◌≤◌, List, [], ◌∷◌, ◌++◌, map, none, some, Bool, true, false, ◌==◌,
  length, drop, le16, put16, IsByte, IsBytes, All, ◌≡◌, ◌⊎◌, inl, inr, refl, sym, ap, ◌∙◌, arith,
  Option-cases, All-suffix, All-drop, subst,
}
use qq_analyzer.Text.{Text}
use qq_analyzer.TxData.Fields.{TxDataField, read_field, read_fields, decode_txdata_fields, finish}
use qq_analyzer.TxData.Layout.{
  RawField, Fits, put_field, put_fields, interpret, read_field-put_field, put_field-read_field,
  put16-le16,
}

-- The record that holds the given fields.
abbrev pub put_record : List RawField → List ℕ
put_record fs = put16 (length fs) (put_fields fs [])

pub le16_front : (b : List ℕ) → IsBytes b → 2 ≤ length b → put16 (le16 b) (drop 2 b) ≡ b
le16_front [] bytes h = absurd (omega arith)
le16_front (x ∷ []) bytes h = absurd (omega arith)
le16_front (x ∷ y ∷ rest) bytes h = put16-le16 x y rest bytes.0 bytes.1.0

module _ (gb18030 : List ℕ → Text × Bool) where
  read_fields-some :
      (k : ℕ) (r : List ℕ) (acc : List TxDataField) {fld : TxDataField} {rest : List ℕ}
      → read_field gb18030 r ≡ some (fld, rest)
      → read_fields gb18030 (suc k) r acc ≡ read_fields gb18030 k rest (acc ++ (fld ∷ []))
  unfolding read_fields
  read_fields-some k r acc e = rw (e, read_fields)

  read_fields-none :
      (k : ℕ) (r : List ℕ) (acc : List TxDataField)
      → read_field gb18030 r ≡ none
      → read_fields gb18030 (suc k) r acc ≡ (false, r, acc)
  unfolding read_fields
  read_fields-none k r acc e = rw (e, read_fields)

  pub read_fields-put_fields :
      (fs : List RawField) (rest : List ℕ) (acc : List TxDataField)
      → All Fits fs
      → read_fields gb18030 (length fs) (put_fields fs rest) acc
        ≡ (true, rest, acc ++ map (interpret gb18030) fs)
  read_fields-put_fields [] rest acc h =
      unfold read_fields in ap (λ t. (true, rest, t)) (sym (append-nil acc))
  read_fields-put_fields (f ∷ fs) rest acc h =
      read_fields-some (length fs) _ acc (read_field-put_field gb18030 f (put_fields fs rest) h.0)
      ∙ (read_fields-put_fields fs rest (acc ++ (interpret gb18030 f ∷ [])) h.1
          ∙ ap (λ t. (true, rest, t))
              (append_assoc acc (interpret gb18030 f ∷ []) (map (interpret gb18030) fs)))

  put_field_rest : (f : RawField) (rest : List ℕ) → IsBytes (put_field f rest) → IsBytes rest
  put_field_rest f rest h =
      All-suffix IsByte f.value rest (All-suffix IsByte f.raw_name _ h.1.1.1).1.1.1.1

  -- What the loop has read stands at the front of its input, and the rest is behind it.
  record IsRead (k : ℕ) (r : List ℕ) (acc : List TxDataField)
      (res : Bool × List ℕ × List TxDataField) : Type 0 where
    raw : List RawField
    fits : All Fits raw
    at_front : r ≡ put_fields raw res.1
    appended : res.2 ≡ acc ++ map (interpret gb18030) raw
    at_most : length raw ≤ k
    all_read : res.0 ≡ true → length raw ≡ k
    cut_short : res.0 ≡ false → (length raw < k) × (read_field gb18030 res.1 ≡ none)

  IsRead-step :
      (k : ℕ) {r rest : List ℕ} (acc : List TxDataField) {fld : TxDataField}
      {res : Bool × List ℕ × List TxDataField} (f : RawField)
      → Fits f
      → r ≡ put_field f rest
      → fld ≡ interpret gb18030 f
      → IsRead k rest (acc ++ (fld ∷ [])) res
      → IsRead (suc k) r acc res
  IsRead-step k acc f fits er ef done = record {
    raw = f ∷ done.raw;
    fits = (fits, done.fits);
    at_front = er ∙ ap (λ t. put_field f t) done.at_front;
    appended =
        done.appended
        ∙ rw ef (append_assoc acc (interpret gb18030 f ∷ []) (map (interpret gb18030) done.raw));
    at_most = omega (arith, done.at_most);
    all_read = λ e. omega (arith, done.all_read e);
    cut_short = λ e. let (lt, stop) = done.cut_short e in (omega arith, stop);
  }

  read_fields-IsRead :
      (k : ℕ) (r : List ℕ) (acc : List TxDataField)
      → IsBytes r
      → IsRead k r acc (read_fields gb18030 k r acc)
  read_fields-IsRead zero r acc bytes = record {
    raw = [];
    fits = tt;
    at_front = unfold read_fields in refl;
    appended = unfold read_fields in sym (append-nil acc);
    at_most = omega arith;
    all_read = λ e. refl;
    cut_short = λ e. unfold read_fields in cc;
  }
  read_fields-IsRead (suc k) r acc bytes = elim (Option-cases (read_field gb18030 r)) [
    | inl e ↦ rw (read_fields-none k r acc e) (record {
      raw = [];
      fits = tt;
      at_front = refl;
      appended = sym (append-nil acc);
      at_most = omega arith;
      all_read = λ e. cc;
      cut_short = λ _. (omega arith, e);
    })
    | inr ((fld, rest), e) ↦
        let (f, fits, er, ef) = put_field-read_field gb18030 r bytes e in
        rw (read_fields-some k r acc e) (
          IsRead-step k acc f fits er ef (
            read_fields-IsRead k rest (acc ++ (fld ∷ []))
              (put_field_rest f rest (subst IsBytes er bytes))))
  ]

  pub decode_some :
      (b : List ℕ)
      → 2 ≤ length b
      → 1 ≤ le16 b
      → le16 b ≤ 200
      → decode_txdata_fields gb18030 b
        ≡ finish (le16 b) (read_fields gb18030 (le16 b) (drop 2 b) [])
  unfolding decode_txdata_fields
  decode_some b h2 h1 h200 = ground arith

  -- A record of at most 200 fields decodes to its count and its fields, and is complete.
  pub decode-put_record :
      (fs : List RawField)
      → length fs ≤ 200
      → All Fits fs
      → decode_txdata_fields gb18030 (put_record fs)
        ≡ record { count = length fs; complete = true; fields = map (interpret gb18030) fs }
  decode-put_record [] h fits = unfold decode_txdata_fields in refl
  decode-put_record (f ∷ fs) h fits =
      let count : le16 (put_record (f ∷ fs)) ≡ length (f ∷ fs) = omega arith in
      decode_some (put_record (f ∷ fs)) (omega arith) (omega arith) (omega arith)
      ∙ ap (λ n. finish n (read_fields gb18030 n (put_fields (f ∷ fs) []) [])) count
      ∙ ap (finish (length (f ∷ fs))) (read_fields-put_fields (f ∷ fs) [] [] fits)

  -- What a record of 1 to 200 declared fields keeps, complete or not: the fields at the front of
  -- the input, as many as could be read.
  pub record IsFront (b : List ℕ) : Type 0 where
    pub raw : List RawField
    pub rest : List ℕ
    pub fits : All Fits raw
    pub at_front : drop 2 b ≡ put_fields raw rest
    pub decoded : (decode_txdata_fields gb18030 b).fields ≡ map (interpret gb18030) raw
    pub counted : (decode_txdata_fields gb18030 b).count ≡ le16 b
    pub at_most : length raw ≤ le16 b
    pub outcome :
        (((decode_txdata_fields gb18030 b).complete ≡ true) × (length raw ≡ le16 b) × (rest ≡ []))
        ⊎ (((decode_txdata_fields gb18030 b).complete ≡ false)
            × (length raw < le16 b)
            × (read_field gb18030 rest ≡ none))
        ⊎ (((decode_txdata_fields gb18030 b).complete ≡ false)
            × (length raw ≡ le16 b)
            × (1 ≤ length rest))

  outcomes :
      {k n : ℕ} (done : Bool) (rest : List ℕ)
      → (done ≡ true → n ≡ k)
      → (done ≡ false → (n < k) × (read_field gb18030 rest ≡ none))
      → (((done && length rest == 0) ≡ true) × (n ≡ k) × (rest ≡ []))
        ⊎ (((done && length rest == 0) ≡ false) × (n < k) × (read_field gb18030 rest ≡ none))
        ⊎ (((done && length rest == 0) ≡ false) × (n ≡ k) × (1 ≤ length rest))
  outcomes false rest all short = let (lt, stop) = short refl in inr (inl (refl, lt, stop))
  outcomes true [] all short = inl (refl, all refl, refl)
  outcomes true (x ∷ xs) all short = inr (inr (ground arith, all refl, omega arith))

  IsFront-of :
      (b : List ℕ) {res : Bool × List ℕ × List TxDataField}
      → decode_txdata_fields gb18030 b ≡ finish (le16 b) res
      → IsRead (le16 b) (drop 2 b) [] res
      → IsFront b
  IsFront-of b {res} e r = record {
    raw = r.raw;
    rest = res.1;
    fits = r.fits;
    at_front = r.at_front;
    decoded = ap (λ t. t.fields) e ∙ r.appended;
    counted = ap (λ t. t.count) e;
    at_most = r.at_most;
    outcome = rw e (outcomes res.0 res.1 r.all_read r.cut_short);
  }

  -- If the input declares 1 to 200 fields, decode_txdata_fields returns the interpretation of a
  -- list of fields that stands at the front of the bytes behind the count; either it is all of
  -- them with no byte left (complete), or the next field cannot be read, or bytes are left over.
  pub decode-IsFront :
      (b : List ℕ) → IsBytes b → 2 ≤ length b → 1 ≤ le16 b → le16 b ≤ 200 → IsFront b
  decode-IsFront b bytes h2 h1 h200 =
      IsFront-of b (decode_some b h2 h1 h200)
        (read_fields-IsRead (le16 b) (drop 2 b) [] (All-drop IsByte 2 b bytes))
