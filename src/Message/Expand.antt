-- ===== src/Message/Expand.antt =====
-- `parse_info_mmp_items_value` of msg3_parser.rs: the items of a forwarded message, and of those that
-- are forwarded in it.
use qq_analyzer.Base.{ℕ, zero, suc, ◌-◌, List, [], ◌∷◌, ◌++◌, Option, ◌==◌, if◌then◌else◌, length}
use qq_analyzer.Text.{Text, lit, text_eq}
use qq_analyzer.TxData.Mask.{decode_txdata_obfuscated_bytes}
use qq_analyzer.TxData.Fields.{TxDataField}
use qq_analyzer.Msg3.Outcome.{Outcome, done, ◌>>=◌}
use qq_analyzer.Msg3.Records.{TdRecord, parse_td_ta_records_at}
use qq_analyzer.Message.Element.{Element, Crates}
use qq_analyzer.Message.Parse.{parse_msgcontent}
use qq_analyzer.Message.Items.{split_mmp_msgpack_stream, msg_header_time_rand, mmp_item_meta}

-- What the code writes of an item; the texts and nodes are printed from the elements.
pub record ItemHead : Type 0 where
  pub index : ℕ
  pub msg_len : ℕ
  pub time : Option ℕ
  pub rand : Option ℕ
  pub sender_uin : Option ℕ
  pub sender_name : Text
  pub msg_seq : Option ℕ
  pub elements : List Element

-- The items in order, each with the items nested in it.
pub data MmpItems : Type 0 where
  no_more : MmpItems
  mmp_item : ItemHead → MmpItems → MmpItems → MmpItems

unfoldable pub txdata_lenkey_plain : List ℕ → List ℕ
txdata_lenkey_plain bytes = decode_txdata_obfuscated_bytes bytes

abbrev streams_in : List TxDataField → List (List ℕ)
streams_in [] = []
streams_in (f ∷ fs) =
    let more = streams_in fs in
    if text_eq f.name (lit "buffMsgPackListStream") then f.value ∷ more else more

abbrev pub streams_of : List TdRecord → List (List ℕ)
streams_of [] = []
streams_of (rec ∷ recs) = streams_in rec.txdata_fields ++ streams_of recs

-- The items of the first stream; without a stream, and where it does not split, there are none.
abbrev pub first_items : List (List ℕ) → List (List ℕ)
first_items [] = []
first_items (stream ∷ more) = split_mmp_msgpack_stream (txdata_lenkey_plain stream)

abbrev pub head_of : ℕ → List ℕ → List Element → ItemHead
head_of index item elems =
    let (time, rand) = msg_header_time_rand item in
    let (uin, name, seq) = mmp_item_meta elems in
    record {
      index = index;
      msg_len = length item;
      time = time;
      rand = rand;
      sender_uin = uin;
      sender_name = name;
      msg_seq = seq;
      elements = elems;
    }

-- The items, and what is left of the number that may be expanded.
abbrev pub Expanded : Type 0
Expanded = MmpItems × ℕ

abbrev pub max_expanded_items : ℕ
max_expanded_items = 2000

abbrev pub expanded_items : Expanded → Outcome MmpItems
expanded_items (items, left) = done items

module _ (crates : Crates) where
  -- `expand` is the call one level deeper.
  unfoldable pub items_loop :
      (List ℕ → ℕ → Outcome Expanded) → ℕ → List (List ℕ) → ℕ → Outcome Expanded
  items_loop expand index [] remaining = done (no_more, remaining)
  items_loop expand index (item ∷ items) zero = done (no_more, zero)
  items_loop expand index (item ∷ items) (suc remaining) =
      parse_msgcontent crates item >>= (λ elems. expand item remaining >>= (λ nested.
        items_loop expand (suc index) items nested.1
        >>= (λ more. done (mmp_item (head_of index item elems) nested.0 more.0, more.1))))

  -- `levels` is 8 less the depth.
  unfoldable pub expand_at : ℕ → List ℕ → ℕ → Outcome Expanded
  expand_at zero bytes remaining = done (no_more, remaining)
  expand_at (suc levels) bytes remaining =
      let records = parse_td_ta_records_at crates.gb18030 bytes 0 0 [] in
      if remaining == 0
      then done (no_more, remaining)
      else items_loop (expand_at levels) 0 (first_items (streams_of records)) remaining

  unfoldable pub parse_info_mmp_items_value : List ℕ → ℕ → ℕ → Outcome Expanded
  parse_info_mmp_items_value bytes depth remaining = expand_at (8 - depth) bytes remaining

  -- The items that `parse_info_mmp_items_json` prints.
  unfoldable pub parse_info_mmp_items : List ℕ → Outcome MmpItems
  parse_info_mmp_items bytes =
      parse_info_mmp_items_value bytes 0 max_expanded_items >>= expanded_items
