-- ===== src/TxData/Layout.antt =====
-- The byte layout of TXData fields, and `read_field` on it.
use qq_analyzer.Base.{
  ℕ, ◌+◌, ◌*◌, sym, ◌<◌, ◌≤◌, List, [], ◌∷◌, ◌++◌, some, Bool, length, take, drop, le32, put16,
  put32, IsByte, IsBytes, ◌≡◌, ap, ◌∙◌, arith, take-length, drop-length, take-append-drop,
  length-take, length-append, All-drop,
}
use qq_analyzer.Text.{Text}
use qq_analyzer.TxData.Fields.{TxDataField, make_field, read_field}

-- A field before its name and value are interpreted.
pub record RawField : Type 0 where
  pub header : ℕ
  pub raw_name : List ℕ
  pub value : List ℕ

-- What the length fields can hold.
pub record Fits (f : RawField) : Type 0 where
  pub header_byte : f.header < 256
  pub name_fits : length f.raw_name < 65536
  pub value_fits : length f.value < 4294967296

abbrev pub put_field : RawField → List ℕ → List ℕ
put_field f rest =
    f.header ∷ put16 (length f.raw_name) (f.raw_name ++ put32 (length f.value) (f.value ++ rest))

abbrev pub put_fields : List RawField → List ℕ → List ℕ
put_fields [] rest = rest
put_fields (f ∷ fs) rest = put_field f (put_fields fs rest)

pub put16-le16 :
    (a b : ℕ) (rest : List ℕ) → a < 256 → b < 256 → put16 (a + 256 * b) rest ≡ a ∷ b ∷ rest
put16-le16 a b rest ha hb = ground arith

-- Four bytes are the little-endian form of the number that they stand for.
pub put32-le32 : (bs : List ℕ) → IsBytes bs → 4 ≤ length bs → put32 (le32 bs) (drop 4 bs) ≡ bs
put32-le32 [] h l = absurd (omega arith)
put32-le32 (a ∷ []) h l = absurd (omega arith)
put32-le32 (a ∷ b ∷ []) h l = absurd (omega arith)
put32-le32 (a ∷ b ∷ c ∷ []) h l = absurd (omega arith)
put32-le32 (a ∷ b ∷ c ∷ d ∷ rest) h l = ground arith

pub le32-lt : (bs : List ℕ) → IsBytes bs → le32 bs < 4294967296
le32-lt [] h = omega arith
le32-lt (a ∷ []) h = omega arith
le32-lt (a ∷ b ∷ []) h = omega arith
le32-lt (a ∷ b ∷ c ∷ []) h = omega arith
le32-lt (a ∷ b ∷ c ∷ d ∷ rest) h = omega arith

pub length-take_le : (n : ℕ) (xs : List ℕ) → n ≤ length xs → length (take n xs) ≡ n
length-take_le n xs h = omega (arith, length-take n xs)

module _ (gb18030 : List ℕ → Text × Bool) where
  abbrev pub interpret : RawField → TxDataField
  interpret f = make_field gb18030 f.header f.raw_name (length f.value) f.value

  -- The last two steps of `read_field`, from the value length on.
  read_value :
      (f : RawField) (rest : List ℕ)
      → Fits f
      → (le32 (put32 (length f.value) (f.value ++ rest)) ≡ length f.value)
        × (length f.value ≤ length (f.value ++ rest))
  read_value f rest fits =
      (omega (arith, fits.value_fits), omega (arith, length-append f.value rest))

  pub read_field-put_field :
      (f : RawField) (rest : List ℕ)
      → Fits f
      → read_field gb18030 (put_field f rest) ≡ some (interpret f, rest)
  unfolding read_field
  read_field-put_field f rest fits = ground (
    arith,
    fits.name_fits,
    read_value f rest fits,
    length-append f.raw_name (put32 (length f.value) (f.value ++ rest)),
    take-length f.raw_name (put32 (length f.value) (f.value ++ rest)),
    drop-length f.raw_name (put32 (length f.value) (f.value ++ rest)),
    take-length f.value rest,
    drop-length f.value rest,
  )

  -- The parts that a successful `read_field` finds behind the header and the name length.
  abbrev sized_of : ℕ → List ℕ → List ℕ
  sized_of n named = drop n named

  abbrev field_of : ℕ → ℕ → List ℕ → RawField
  field_of h n named =
      let sized = drop n named in
      record { header = h; raw_name = take n named; value = take (le32 sized) (drop 4 sized) }

  read_field_parts :
      (h a b : ℕ) (named : List ℕ) {fld : TxDataField} {rest : List ℕ}
      → read_field gb18030 (h ∷ a ∷ b ∷ named) ≡ some (fld, rest)
      → (a + 256 * b ≤ length named)
        × (4 ≤ length (drop (a + 256 * b) named))
        × (le32 (drop (a + 256 * b) named) ≤ length (drop 4 (drop (a + 256 * b) named)))
        × (fld
            ≡ make_field gb18030 h
                (take (a + 256 * b) named)
                (le32 (drop (a + 256 * b) named))
                (take (le32 (drop (a + 256 * b) named)) (drop 4 (drop (a + 256 * b) named))))
        × (rest ≡ drop (le32 (drop (a + 256 * b) named)) (drop 4 (drop (a + 256 * b) named)))
  unfolding read_field
  read_field_parts h a b named e = ground arith

  field_of_layout :
      (h a b : ℕ) (named : List ℕ)
      → IsBytes (h ∷ a ∷ b ∷ named)
      → a + 256 * b ≤ length named
      → 4 ≤ length (drop (a + 256 * b) named)
      → le32 (drop (a + 256 * b) named) ≤ length (drop 4 (drop (a + 256 * b) named))
      → put_field
          (field_of h (a + 256 * b) named)
          (drop (le32 (drop (a + 256 * b) named)) (drop 4 (drop (a + 256 * b) named)))
        ≡ h ∷ a ∷ b ∷ named
  field_of_layout h a b named bytes hn h4 hv =
      let n : ℕ = a + 256 * b in
      let sized : List ℕ = drop n named in
      rw
        (
          length-take_le n named hn,
          length-take_le (le32 sized) (drop 4 sized) hv,
          take-append-drop (le32 sized) (drop 4 sized),
          put32-le32 sized (All-drop IsByte n named bytes.1.1.1) h4,
          take-append-drop n named,
        )
        (ap (λ t. h ∷ t) (put16-le16 a b named bytes.1.0 bytes.1.1.0))

  -- A field that was read stands in the input exactly as `put_field` writes it.
  pub put_field-read_field :
      (r : List ℕ) {fld : TxDataField} {rest : List ℕ}
      → IsBytes r
      → read_field gb18030 r ≡ some (fld, rest)
      → (f : RawField) × Fits f × (r ≡ put_field f rest) × (fld ≡ interpret f)
  put_field-read_field [] bytes e = unfold read_field in cc
  put_field-read_field (h ∷ []) bytes e = unfold read_field in cc
  put_field-read_field (h ∷ a ∷ []) bytes e = unfold read_field in cc
  put_field-read_field (h ∷ a ∷ b ∷ named) bytes e =
      let (hn, h4, hv, ef, er) = read_field_parts h a b named e in
      let sized : List ℕ = drop (a + 256 * b) named in
      let en = length-take_le (a + 256 * b) named hn in
      let ev = length-take_le (le32 sized) (drop 4 sized) hv in
      (
        field_of h (a + 256 * b) named,
        record {
          header_byte = bytes.0;
          name_fits = omega arith;
          value_fits =
              omega (arith, le32-lt sized (All-drop IsByte (a + 256 * b) named bytes.1.1.1));
        },
        sym (field_of_layout h a b named bytes hn h4 hv)
            ∙ ap (λ t. put_field (field_of h (a + 256 * b) named) t) (sym er),
        ef
            ∙ ap
                (λ k.
                  make_field gb18030 h (take (a + 256 * b) named) k
                    (take (le32 sized) (drop 4 sized)))
                (sym ev),
      )
