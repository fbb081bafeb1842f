-- ===== src/Message/Xml.antt =====
-- The XML of a structured message, and the texts that stand for a structured element.
use qq_analyzer.Base.{
  ℕ, List, [], ◌∷◌, ◌++◌, map, Option, none, some, not, ◌&&◌, ◌||◌, ltb, leb, ◌==◌, if◌then◌else◌,
  length, drop, byte_at,
}
use qq_analyzer.Text.{Text, lit, is_empty, trim}
use qq_analyzer.Text.Utf8.{from_utf8}
use qq_analyzer.Text.Find.{find, behind_found, before_found, is_blank, or_text, first_where}
use qq_analyzer.Msg3.Texts.{utf16le_to_string, reasonable_field_text, is_generic_token}
use qq_analyzer.Message.Element.{Element, Crates}
use qq_analyzer.Message.Named.{txdata_named_texts, first_txdata_named_text}
use qq_analyzer.Message.Json.{Json, find_json_string}

abbrev pub up_to : ℕ → Option Text → Option Text
up_to quote none = none
up_to quote (some value) = before_found value (find (quote ∷ []) value)

-- The text between `attr=` with the quote and the next quote.
unfoldable pub quoted_value : ℕ → Text → Text → Option Text
quoted_value quote xml attr =
    let needle = attr ++ 61 ∷ quote ∷ [] in up_to quote (behind_found needle xml (find needle xml))

abbrev or_none : Option Text → Option Text → Text
or_none (some text) other = text
or_none none (some text) = text
or_none none none = []

unfoldable pub extract_xml_attr : Text → Text → Text
extract_xml_attr xml attr = or_none (quoted_value 34 xml attr) (quoted_value 39 xml attr)

abbrev reasonable_or : Text → Option Text → Text
reasonable_or other (some text) = if reasonable_field_text text then text else other
reasonable_or other none = other

abbrev inflated_text : Option (List ℕ) → Text
inflated_text none = []
inflated_text (some inflated) =
    let text = utf16le_to_string inflated in
    reasonable_or (if reasonable_field_text text then text else []) (from_utf8 inflated)

module _ (crates : Crates) where
  -- One of the two candidates; a reasonable text is never empty.
  unfoldable pub candidate_text : List ℕ → Text
  candidate_text bytes =
      if ltb (length bytes) 2 || not (byte_at bytes 0 == 0x78)
      then []
      else inflated_text (crates.inflate bytes)

  unfoldable pub decode_struct_msg_payload : List ℕ → Text
  decode_struct_msg_payload bytes =
      if ltb 1 (length bytes) && leb (byte_at bytes 0) 1
      then or_text (candidate_text (drop 1 bytes)) (candidate_text bytes)
      else candidate_text bytes

  unfoldable pub struct_msg_xml : Element → Text
  struct_msg_xml e =
      or_text
        (first_where (λ t. not (is_empty t))
          (map (λ f. decode_struct_msg_payload f.value) e.fields))
        (decode_struct_msg_payload e.payload)

  abbrev first_json : List Text → Option Json
  first_json [] = none
  first_json (t ∷ ts) = elim (crates.parse_json t) [
    | some value ↦ some value
    | none ↦ first_json ts
  ]

  unfoldable pub ark_meta_json : Element → Option Json
  ark_meta_json e = first_json (txdata_named_texts e (lit "meta" ∷ lit "config-json" ∷ []))

  abbrev meta_text : Option Json → Text
  meta_text none = []
  meta_text (some meta) =
      first_where (λ t. not (is_empty t))
        (map (λ key. find_json_string meta key) (lit "title" ∷ lit "desc" ∷ lit "tag" ∷ []))

  unfoldable pub ark_app_display_text : Element → Text
  ark_app_display_text e =
      let prompt = first_txdata_named_text e (lit "prompt" ∷ []) in
      or_text (trim prompt) (
        or_text (meta_text (ark_meta_json e))
          (first_txdata_named_text e (lit "desc" ∷ lit "view" ∷ lit "app" ∷ [])))

unfoldable pub struct_msg_display_text : Text → Text → Text
struct_msg_display_text xml fallback =
    let attrs = lit "brief" ∷ lit "m_resid" ∷ lit "title" ∷ lit "summary" ∷ [] in
    or_text
      (first_where (λ t. not (is_empty t)) (map (λ attr. trim (extract_xml_attr xml attr)) attrs))
      (or_text (trim fallback) (if is_blank xml then [] else lit "[结构消息]"))

-- `format!("{} {}", a, b)` of those of two trimmed texts that are not empty.
abbrev pub spaced : Text → Text → Text
spaced [] second = second
spaced (c ∷ cs) [] = c ∷ cs
spaced (c ∷ cs) (d ∷ ds) = (c ∷ cs) ++ 32 ∷ d ∷ ds

unfoldable pub structured_txdata_display_text : Element → Text
structured_txdata_display_text e =
    or_text
      (first_where (λ t. not (is_empty t) && not (is_generic_token t))
        (map (λ xml. trim (struct_msg_display_text xml []))
          (txdata_named_texts e (lit "strXmlInfo" ∷ []))))
      (spaced (trim (first_txdata_named_text e (lit "strTitle" ∷ [])))
        (trim (first_txdata_named_text e (lit "strSummary" ∷ []))))

unfoldable pub multi_msg_display_text : Element → Text
multi_msg_display_text e =
    spaced (trim (first_txdata_named_text e (lit "brief" ∷ [])))
      (trim (first_txdata_named_text e (lit "title" ∷ [])))
