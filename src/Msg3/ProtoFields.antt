-- ===== src/Msg3/ProtoFields.antt =====
-- `collect_proto_fields`: the fields of a protobuf message and of those nested in it.
use qq_analyzer.Base.{
  ℕ, zero, suc, ◌+◌, ◌-◌, ◌/◌, ◌%◌, List, [], ◌∷◌, ◌++◌, Option, none, some, not, ◌||◌, ltb, leb,
  ◌==◌, if◌then◌else◌, length, take, drop,
}
use qq_analyzer.Text.{Text, lit, is_empty, decimal}
use qq_analyzer.Msg3.Outcome.{
  Outcome, done, panicked, Round, leave, go_on, fault, follow, usize_limit,
}
use qq_analyzer.Msg3.Texts.{valid_utf8_text}
use qq_analyzer.Msg3.Varint.{read_varint}
use qq_analyzer.Msg3.Proto.{looks_like_proto}

pub record ProtoField : Type 0 where
  pub path : Text
  pub field : ℕ
  pub wire : ℕ
  pub varint : Option ℕ
  pub bytes : List ℕ
  pub text : Text

abbrev pub sub_path : Text → ℕ → Text
sub_path path field_no =
    if is_empty path then decimal field_no else path ++ lit "." ++ decimal field_no

abbrev pub text_or_empty : Option Text → Text
text_or_empty none = []
text_or_empty (some text) = text

abbrev pub short_text : List ℕ → Text
short_text bytes = if leb (length bytes) 500 then text_or_empty (valid_utf8_text bytes) else []

abbrev pub keyed_item : Text → ℕ → ProtoField
keyed_item path key = record {
  path = sub_path path (key / 8);
  field = key / 8;
  wire = key % 8;
  varint = none;
  bytes = [];
  text = [];
}

module _ (nested : List ℕ → Text → List ProtoField → Outcome (List ProtoField)) (total : ℕ) where
  -- The item is pushed behind those of the message nested in it.
  abbrev pub push_item : List ℕ → ProtoField → Outcome (List ProtoField) → Round (List ProtoField)
  push_item rest item (done out) = go_on rest (out ++ (item ∷ []))
  push_item rest item panicked = fault

  abbrev pub with_nested : List ℕ → Text → List ProtoField → Outcome (List ProtoField)
  with_nested bytes path out = if leb (length bytes) 4096 then nested bytes path out else done out

  abbrev pub item_sized : ProtoField → Option ℕ × List ℕ → List ProtoField → Round (List ProtoField)
  item_sized item (none, rest) out = leave out
  item_sized item (some n, rest) out =
      if leb usize_limit (total - length rest + n)
      then fault
      else if ltb (length rest) n
      then leave out
      else push_item (drop n rest)
          (record item { bytes = take n rest; text = short_text (take n rest) })
          (with_nested (take n rest) item.path out)

  abbrev pub item_fixed : ℕ → ProtoField → List ℕ → List ProtoField → Round (List ProtoField)
  item_fixed n item rest out =
      if ltb (length rest) n
      then leave out
      else push_item (drop n rest) (record item { bytes = take n rest }) (done out)

  -- A number that cannot be read leaves `None` in the item, and the loop goes on.
  abbrev pub item_number :
      ProtoField → Option ℕ × List ℕ → List ProtoField → Round (List ProtoField)
  item_number item (v, rest) out = push_item rest (record item { varint = v }) (done out)

  abbrev pub item_of : ProtoField → List ℕ → List ProtoField → Round (List ProtoField)
  item_of item rest out =
      if item.wire == 0
      then item_number item (read_varint rest) out
      else if item.wire == 1
      then item_fixed 8 item rest out
      else if item.wire == 2
      then item_sized item (read_varint rest) out
      else if item.wire == 5
      then item_fixed 4 item rest out
      else leave out

  abbrev pub item_keyed : Text → Option ℕ × List ℕ → List ProtoField → Round (List ProtoField)
  item_keyed path (none, rest) out = leave out
  item_keyed path (some key, rest) out =
      if key == 0 then leave out else item_of (keyed_item path key) rest out

  unfoldable pub fields_round : Text → List ℕ → List ProtoField → Round (List ProtoField)
  fields_round path rest out = item_keyed path (read_varint rest) out

  -- Each round takes a byte at least, so that the length of the input is fuel enough.
  unfoldable pub fields_loop : ℕ → Text → List ℕ → List ProtoField → Outcome (List ProtoField)
  fields_loop fuel path [] out = done out
  fields_loop zero path (b ∷ rest) out = done out
  fields_loop (suc fuel) path (b ∷ rest) out =
      let more = follow (fields_round path (b ∷ rest) out) (fields_loop fuel path) in
      if ltb (length out) 500 then more else done out

-- `levels` is 4 less the depth.
unfoldable pub fields_at : ℕ → List ℕ → Text → List ProtoField → Outcome (List ProtoField)
fields_at zero bytes path out = done out
fields_at (suc levels) bytes path out =
    if ltb (length bytes) 2 || ltb 500 (length out) || not (looks_like_proto bytes)
    then done out
    else fields_loop (fields_at levels) (length bytes) (length bytes) path bytes out

unfoldable pub collect_proto_fields :
    List ℕ → ℕ → Text → List ProtoField → Outcome (List ProtoField)
collect_proto_fields bytes depth path out = fields_at (4 - depth) bytes path out
