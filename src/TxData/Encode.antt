-- ===== src/TxData/Encode.antt =====
-- The record encoder of the tests of txdata_codec.rs, for fields with ASCII names.
use qq_analyzer.Base.{
  ℕ, ◌%◌, ◌<◌, ◌≤◌, List, [], ◌∷◌, map, Bool, true, length, All, ◌≡◌, refl, ap, ap₂, ◌∙◌, arith,
  length-map,
}
use qq_analyzer.Text.{Text}
use qq_analyzer.TxData.Mask.{encode_txdata_string, length_key, length-mask}
use qq_analyzer.TxData.Strings.{decode_fixed_high_byte_string}
use qq_analyzer.TxData.Fields.{TxDataField, named_field, decode_txdata_fields}
use qq_analyzer.TxData.Layout.{RawField, Fits, interpret}
use qq_analyzer.TxData.Record.{put_record, decode-put_record}
use qq_analyzer.TxData.Names.{IsPrintable, decode-encode_ascii}

pub record NamedField : Type 0 where
  pub header : ℕ
  pub name : Text
  pub value : List ℕ

abbrev pub encode_field : NamedField → RawField
encode_field f = record {
  header = f.header;
  raw_name = encode_txdata_string f.name;
  value = f.value;
}

unfoldable pub txdata_record : List NamedField → List ℕ
txdata_record fs = put_record (map encode_field fs)

-- A byte header, a printable ASCII name of 1 to 4096 characters and a value of 32-bit length.
pub record IsEncodable (f : NamedField) : Type 0 where
  pub header_byte : f.header < 256
  pub printable : IsPrintable f.name
  pub named : 1 ≤ length f.name
  pub name_fits : length f.name ≤ 4096
  pub value_fits : length f.value < 4294967296

module _ (gb18030 : List ℕ → Text × Bool) where
  -- The field that a reader should see.
  abbrev pub plain_field : NamedField → TxDataField
  plain_field f = named_field gb18030 f.header f.name (length f.value) f.value

  encoded-Fits : (f : NamedField) → IsEncodable f → Fits (encode_field f)
  unfolding encode_txdata_string
  encoded-Fits f h = record {
    header_byte = h.header_byte;
    name_fits = omega (arith, length-mask (length_key (length f.name % 65536)) f.name, h.name_fits);
    value_fits = h.value_fits;
  }

  interpret-encode_field :
      (f : NamedField) → IsEncodable f → interpret gb18030 (encode_field f) ≡ plain_field f
  unfolding decode_fixed_high_byte_string
  interpret-encode_field f h =
      ap (λ n. named_field gb18030 f.header n (length f.value) f.value)
        (decode-encode_ascii gb18030 f.name h.printable h.named h.name_fits)

  encoded-All : (fs : List NamedField) → All IsEncodable fs → All Fits (map encode_field fs)
  encoded-All [] h = tt
  encoded-All (f ∷ fs) h = (encoded-Fits f h.0, encoded-All fs h.1)

  interpret-All :
      (fs : List NamedField)
      → All IsEncodable fs
      → map (interpret gb18030) (map encode_field fs) ≡ map plain_field fs
  interpret-All [] h = refl
  interpret-All (f ∷ fs) h = ap₂ ◌∷◌ (interpret-encode_field f h.0) (interpret-All fs h.1)

  -- A record that was encoded from at most 200 fields, each with a byte header, a printable ASCII name
  -- of 1 to 4096 characters and a value of 32-bit length, decodes to these fields, names included, and
  -- is complete.
  pub decode-txdata_record :
      (fs : List NamedField)
      → length fs ≤ 200
      → All IsEncodable fs
      → decode_txdata_fields gb18030 (txdata_record fs)
        ≡ record { count = length fs; complete = true; fields = map plain_field fs }
  unfolding txdata_record
  decode-txdata_record fs h ok =
      decode-put_record gb18030 (map encode_field fs) (rw length-map h) (encoded-All fs ok)
      ∙ ap₂ (λ n xs. record { count = n; complete = true; fields = xs })
          (length-map encode_field fs) (interpret-All fs ok)
