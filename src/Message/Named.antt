-- ===== src/Message/Named.antt =====
-- The TXData fields of an element, looked up by name.
use qq_analyzer.Base.{
  ℕ, ◌+◌, ◌*◌, List, [], ◌∷◌, ◌++◌, Option, none, some, Bool, not, ◌&&◌, ◌==◌, if◌then◌else◌,
  length, any,
}
use qq_analyzer.Text.{Text, is_empty, member}
use qq_analyzer.TxData.Fields.{TxDataField}
use qq_analyzer.Msg3.Records.{TdRecord}
use qq_analyzer.Message.Element.{Element}

-- `if !rec.txdata_complete { continue; }`: the fields of the complete records.
abbrev pub complete_fields : List TdRecord → List TxDataField
complete_fields [] = []
complete_fields (rec ∷ recs) =
    let more = complete_fields recs in
    if rec.txdata_complete then rec.txdata_fields ++ more else more

abbrev pub fields_of : Element → List TxDataField
fields_of e = complete_fields e.td_records

unfoldable pub push_unique_text : List Text → Text → List Text
push_unique_text out text =
    if not (is_empty text) && not (member text out) then out ++ (text ∷ []) else out

abbrev pub push_all : List Text → List Text → List Text
push_all out [] = out
push_all out (t ∷ ts) = push_all (push_unique_text out t) ts

abbrev pub named_texts : List Text → List TxDataField → List Text → List Text
named_texts names [] out = out
named_texts names (f ∷ fs) out =
    named_texts names fs (if member f.name names then push_all out f.value_texts else out)

unfoldable pub txdata_named_texts : Element → List Text → List Text
txdata_named_texts e names = named_texts names (fields_of e) []

abbrev pub first_or_empty : List Text → Text
first_or_empty [] = []
first_or_empty (t ∷ ts) = t

unfoldable pub first_txdata_named_text : Element → List Text → Text
first_txdata_named_text e names = first_or_empty (txdata_named_texts e names)

-- The little-endian number of the bytes.
abbrev pub le_value : List ℕ → ℕ
le_value [] = 0
le_value (b ∷ bs) = b + 256 * le_value bs

abbrev named_uint : List Text → List TxDataField → Option ℕ
named_uint names [] = none
named_uint names (f ∷ fs) =
    let more = named_uint names fs in
    if member f.name names && any (λ n. length f.value == n) (1 ∷ 2 ∷ 4 ∷ 8 ∷ [])
    then some (le_value f.value)
    else more

unfoldable pub first_txdata_named_uint : Element → List Text → Option ℕ
first_txdata_named_uint e names = named_uint names (fields_of e)

unfoldable pub has_txdata_named_field : Element → List Text → Bool
has_txdata_named_field e names = any (λ f. member f.name names) (fields_of e)
