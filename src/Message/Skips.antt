-- ===== src/Message/Skips.antt =====
-- The elements of a reply that the display leaves out: `display_skip_indices` of msg3_parser.rs. A
-- set of indices is a list.
use qq_analyzer.Base.{
  ℕ, zero, suc, List, [], ◌∷◌, ◌++◌, Bool, false, ◌&&◌, ◌||◌, leb, ◌==◌, if◌then◌else◌, any, length,
  drop,
}
use qq_analyzer.Text.{lit, is_empty, starts_with, contains, text_eq, trim}
use qq_analyzer.Message.Element.{Element}

unfoldable pub is_reply_abstract : Element → Bool
is_reply_abstract e =
    e.typ == 0x19
    && (any (λ field. starts_with (lit "common_elem.45") field.path) e.proto_fields
        || any (λ text. contains (lit "聊天记录") text) e.proto_strings)

-- A mention of 64 characters at most.
abbrev pub is_mention : List ℕ → Bool
is_mention text = starts_with (lit "@") text && leb (length text) 64

unfoldable pub is_reply_leadin_text : Element → Bool
is_reply_leadin_text e =
    let text = trim e.summary in e.typ == 1 && (is_empty text || is_mention text)

unfoldable pub is_reply_mention_text : Element → Bool
is_reply_mention_text e = e.typ == 1 && is_mention (trim e.summary)

unfoldable pub is_space_text : Element → Bool
is_space_text e = e.typ == 1 && is_empty (trim e.summary)

-- The lead-in before an abstract; the elements before it stand in reverse.
unfoldable pub leadins : List Element → List ℕ
leadins [] = []
leadins (e ∷ before) =
    let more = leadins before in if is_reply_leadin_text e then length before ∷ more else []

unfoldable pub spaces : List Element → ℕ
spaces [] = 0
spaces (e ∷ rest) = let more = spaces rest in if is_space_text e then suc more else 0

abbrev pub indices_from : ℕ → ℕ → List ℕ
indices_from first zero = []
indices_from first (suc n) = first ∷ indices_from (suc first) n

abbrev pub is_same_mention : Element → List Element → Bool
is_same_mention e [] = false
is_same_mention e (next ∷ rest) =
    is_reply_mention_text next && text_eq (trim e.summary) (trim next.summary)

-- The first of two equal mentions behind an abstract, and the spaces between them.
unfoldable pub repeated_mention : ℕ → List Element → List ℕ
repeated_mention first [] = []
repeated_mention first (e ∷ rest) =
    if is_reply_mention_text e && is_same_mention e (drop (spaces rest) rest)
    then first ∷ indices_from (suc first) (spaces rest)
    else []

unfoldable pub skips_loop : List Element → List Element → List ℕ
skips_loop before [] = []
skips_loop before (e ∷ rest) =
    let more = skips_loop (e ∷ before) rest in
    if is_reply_abstract e
    then leadins before ++ (repeated_mention (suc (length before)) rest ++ more)
    else more

unfoldable pub display_skip_indices : List Element → List ℕ
display_skip_indices elems = skips_loop [] elems
