-- ===== src/Message/SkipsExamples.antt =====
-- The elements of a reply, at concrete inputs.
use qq_analyzer.Base.{List, [], ◌∷◌, All, ◌≡◌, refl}
use qq_analyzer.Text.{Text, lit}
use qq_analyzer.Message.Element.{Element, blank}
use qq_analyzer.Message.Skips.{
  is_reply_abstract, is_reply_leadin_text, is_reply_mention_text, is_space_text, leadins, spaces,
  repeated_mention, skips_loop, display_skip_indices,
}
use qq_analyzer.Message.SkipsLeadin.{IsLeadinAt, display_skip_indices-IsLeadinAt}

abbrev text_element : Text → Element
text_element summary = record (blank 0 1 []) { summary = summary }

abbrev abstract_element : Element
abstract_element = record (blank 0 0x19 []) { proto_strings = lit "聊天记录" ∷ [] }

-- The second mention of "@b" is shown, and so are the texts before the lead-in and behind it.
abbrev reply : List Element
reply =
    text_element (lit "hi")
    ∷ text_element (lit "@a")
    ∷ abstract_element
    ∷ text_element (lit "@b")
    ∷ text_element (lit " ")
    ∷ text_element (lit "@b")
    ∷ text_element (lit "yes")
    ∷ []

reply_skips : display_skip_indices reply ≡ 1 ∷ 3 ∷ 4 ∷ []
unfolding display_skip_indices skips_loop repeated_mention spaces leadins is_space_text
    is_reply_mention_text is_reply_leadin_text is_reply_abstract
reply_skips = refl

display_skip_indices-IsLeadinAt_example : All (IsLeadinAt reply) (display_skip_indices reply)
display_skip_indices-IsLeadinAt_example = display_skip_indices-IsLeadinAt reply
