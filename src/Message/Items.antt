-- ===== src/Message/Items.antt =====
-- The items of a forwarded message: `split_mmp_msgpack_stream`, `msg_header_time_rand`, `hex_to_bytes`
-- and `mmp_item_meta` of msg3_parser.rs.
use qq_analyzer.Base.{
  ℕ, zero, suc, ◌+◌, ◌-◌, ◌*◌, List, [], ◌∷◌, Option, none, some, Bool, true, false, not, ◌||◌, ltb,
  within, ◌==◌, if◌then◌else◌, length, take, drop, le32,
}
use qq_analyzer.Text.{Text, lit, starts_with, is_ascii_hexdigit}
use qq_analyzer.Text.Find.{is_blank}
use qq_analyzer.Message.Element.{Element}
use qq_analyzer.Message.Named.{first_txdata_named_text, first_txdata_named_uint}

abbrev pub cons_item : List ℕ → Option (List (List ℕ)) → Option (List (List ℕ))
cons_item item none = none
cons_item item (some more) = some (item ∷ more)

-- The loop over the declared count; `none` is `return Vec::new()`.
unfoldable pub split_items : ℕ → List ℕ → Option (List (List ℕ))
split_items zero [] = some []
split_items zero (b ∷ rest) = none
split_items (suc count) rest =
    let n = le32 rest in
    let item = drop 4 rest in
    elim (ltb (length rest) 4
      || ltb n 8
      || ltb (length item) n
      || not (starts_with (lit "MSG") item)) [
        | true ↦ none
        | false ↦ cons_item (take n item) (split_items count (drop n item))
      ]

abbrev pub items_or_none : Option (List (List ℕ)) → List (List ℕ)
items_or_none none = []
items_or_none (some items) = items

unfoldable pub split_mmp_msgpack_stream : List ℕ → List (List ℕ)
split_mmp_msgpack_stream bytes =
    let count = le32 bytes in
    let total = le32 (drop 4 bytes) in
    elim (ltb (length bytes) 8 || count == 0 || ltb 200 count || not (total == length bytes - 8)) [
      | true ↦ []
      | false ↦ items_or_none (split_items count (drop 8 bytes))
    ]

unfoldable pub msg_header_time_rand : List ℕ → Option ℕ × Option ℕ
msg_header_time_rand bytes =
    if ltb (length bytes) 16 || not (starts_with (lit "MSG") bytes)
    then (none, none)
    else (some (le32 (drop 8 bytes)), some (le32 (drop 12 bytes)))

-- `(c as char).to_digit(16)`.
abbrev hex_value : ℕ → ℕ
hex_value c =
    if within 48 57 c
    then c - 48
    else if within 65 70 c
    then c - 55
    else if within 97 102 c
    then c - 87
    else 0

abbrev digits_only : Text → Text
digits_only [] = []
digits_only (c ∷ cs) = let more = digits_only cs in if is_ascii_hexdigit c then c ∷ more else more

abbrev digit_pairs : Text → List ℕ
digit_pairs [] = []
digit_pairs (c ∷ []) = []
digit_pairs (c ∷ d ∷ rest) = (16 * hex_value c + hex_value d) ∷ digit_pairs rest

unfoldable pub hex_to_bytes : Text → List ℕ
hex_to_bytes text = digit_pairs (digits_only text)

abbrev has_meta : Option ℕ → Text → Option ℕ → Bool
has_meta none name none = not (is_blank name)
has_meta none name (some seq) = true
has_meta (some uin) name seq = true

unfoldable pub mmp_item_meta : List Element → Option ℕ × Text × Option ℕ
mmp_item_meta [] = (none, [], none)
mmp_item_meta (e ∷ es) =
    let uin = first_txdata_named_uint e (lit "dwSenderUin" ∷ []) in
    let name = first_txdata_named_text e (lit "strSenderName" ∷ lit "strSenderShowName" ∷ []) in
    let seq = first_txdata_named_uint e (lit "dwMsgSeq" ∷ []) in
    let more = mmp_item_meta es in if has_meta uin name seq then (uin, name, seq) else more
