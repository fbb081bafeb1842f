-- ===== src/Message/Labels.antt =====
-- The labels of messages without a visible body.
use qq_analyzer.Base.{List, [], ◌∷◌, map, Bool, false, not, ◌&&◌, ◌||◌, if◌then◌else◌, any}
use qq_analyzer.Text.{Text, lit, is_empty, member, text_eq, trim}
use qq_analyzer.Text.Find.{or_text, first_where}
use qq_analyzer.TxData.Fields.{TxDataField}
use qq_analyzer.Msg3.Texts.{is_generic_token}
use qq_analyzer.Message.Element.{Element, is_nil}
use qq_analyzer.Message.Named.{fields_of, has_txdata_named_field}

unfoldable pub is_mmt_transport_index : Element → Bool
is_mmt_transport_index e =
    has_txdata_named_field e (lit "bStructMsgVersion" ∷ [])
    && has_txdata_named_field e (lit "arrMMTMsgIndex" ∷ [])
    && has_txdata_named_field e (lit "arrPackets" ∷ [])

abbrev transport_names : List Text
transport_names =
    lit "arrPackets"
    ∷ lit "C2CSessionData"
    ∷ lit "dwConnTime"
    ∷ lit "dwServerTime"
    ∷ lit "dwMsgSeq"
    ∷ lit "dwBeginSeq"
    ∷ lit "dwEndSeq"
    ∷ lit "dwPacketSeq"
    ∷ lit "dwPacketCount"
    ∷ lit "dwPacketIndex"
    ∷ lit "nSessionType"
    ∷ []

unfoldable pub has_transport_metadata : Element → Bool
has_transport_metadata e = has_txdata_named_field e transport_names

abbrev visible_names : List Text
visible_names = lit "bsAbstractText" ∷ lit "MSGBOX_bsPreviewMsgText" ∷ lit "bsMsgText" ∷ []

unfoldable pub has_unresolved_visible_txdata_text : Element → Bool
has_unresolved_visible_txdata_text e =
    any (λ f. member f.name visible_names && is_nil f.value_texts && not (is_nil f.value))
      (fields_of e)

unfoldable pub system_message_label : List Element → Text
system_message_label elems =
    if any has_unresolved_visible_txdata_text elems then lit "[系统消息]" else []

abbrev call_names : List Text
call_names = lit "wAvMsgType" ∷ lit "bVideo" ∷ lit "nMsgContentType" ∷ []

-- The loop, where `has_av_field` is the flag.
abbrev call_label : List TxDataField → Bool → Text
call_label [] has_av_field = if has_av_field then lit "[音视频通话]" else []
call_label (f ∷ fs) has_av_field =
    let more = call_label fs (has_av_field || member f.name call_names) in
    let said =
      first_where (λ t. not (is_empty t) && not (is_generic_token t)) (map trim f.value_texts) in
    if text_eq f.name (lit "bsMsgText") then or_text said more else more

unfoldable pub av_call_label : Element → Text
av_call_label e = call_label (fields_of e) false

unfoldable pub transport_only_label : List Element → Text
transport_only_label elems =
    if any is_mmt_transport_index elems
    then lit "[无可见正文：MMT包索引]"
    else or_text (first_where (λ t. not (is_empty t)) (map av_call_label elems)) (
        or_text (system_message_label elems)
          (if any has_transport_metadata elems then lit "[无可见正文：传输元数据]" else []))
