-- ===== src/Message/SkipsLeadin.antt =====
-- `display_skip_indices` of msg3_parser.rs skips nothing but lead-in texts.
use qq_analyzer.Base.{
  ℕ, suc, ◌+◌, List, [], ◌∷◌, Option, none, some, Bool, true, false, ◌&&◌, ◌||◌, ◌==◌, length, drop,
  All, All-append, drop-drop, inl, inr, Bool-cases, ◌≡◌, refl, sym, ap, arith,
}
use qq_analyzer.Text.{is_empty, trim}
use qq_analyzer.Message.Element.{Element}
use qq_analyzer.Message.Skips.{
  is_reply_abstract, is_reply_leadin_text, is_reply_mention_text, is_space_text, leadins, spaces,
  indices_from, is_same_mention, repeated_mention, skips_loop, display_skip_indices,
}

abbrev pub first_of : List Element → Option Element
first_of [] = none
first_of (e ∷ rest) = some e

-- The element at an index is a text that is blank or a mention of 64 characters at most.
abbrev pub IsLeadinAt : List Element → ℕ → Type 0
IsLeadinAt elems i =
    (e : Element) × (first_of (drop i elems) ≡ some e) × (is_reply_leadin_text e ≡ true)

-- Elements in reverse, each at its index.
abbrev AreBefore : List Element → List Element → Type 0
AreBefore elems [] = Unit
AreBefore elems (e ∷ before) =
    (first_of (drop (length before) elems) ≡ some e) × AreBefore elems before

leadins-IsLeadinAt :
    (elems before : List Element) → AreBefore elems before → All (IsLeadinAt elems) (leadins before)
unfolding leadins
leadins-IsLeadinAt elems [] h = tt
leadins-IsLeadinAt elems (e ∷ before) h = elim (Bool-cases (is_reply_leadin_text e)) [
  | inl holds ↦ rw (holds) ((e, h.0, holds), leadins-IsLeadinAt elems before h.1)
  | inr fails ↦ rw (fails) tt
]

and_second : (a b c : Bool) → (a && c) ≡ true → (a && (b || c)) ≡ true
and_second false b c h = h
and_second true false c h = h
and_second true true c h = refl

and_first : (a b c : Bool) → (a && b) ≡ true → (a && (b || c)) ≡ true
and_first false b c h = h
and_first true true c h = refl
and_first true false c h = absurd (ground arith)

mention_leads : (e : Element) → is_reply_mention_text e ≡ true → is_reply_leadin_text e ≡ true
unfolding is_reply_mention_text is_reply_leadin_text
mention_leads e h = and_second (e.typ == 1) (is_empty (trim e.summary)) _ h

space_leads : (e : Element) → is_space_text e ≡ true → is_reply_leadin_text e ≡ true
unfolding is_space_text is_reply_leadin_text
space_leads e h = and_first (e.typ == 1) (is_empty (trim e.summary)) _ h

rest_behind :
    (elems : List Element) (i : ℕ) (e : Element) (rest : List Element)
    → drop i elems ≡ e ∷ rest
    → drop (suc i) elems ≡ rest
rest_behind elems i e rest h =
    let one_more : suc i ≡ i + 1 = omega arith in rw (one_more, sym (drop-drop i 1 elems), h) refl

spaces-IsLeadinAt :
    (elems : List Element) (i : ℕ) (rest : List Element)
    → drop i elems ≡ rest
    → All (IsLeadinAt elems) (indices_from i (spaces rest))
unfolding spaces
spaces-IsLeadinAt elems i [] h = tt
spaces-IsLeadinAt elems i (e ∷ rest) h = elim (Bool-cases (is_space_text e)) [
  | inl holds ↦ rw (holds) (
    (e, ap first_of h, space_leads e holds),
    spaces-IsLeadinAt elems (suc i) rest (rest_behind elems i e rest h),
  )
  | inr fails ↦ rw (fails) tt
]

repeated_mention-IsLeadinAt :
    (elems : List Element) (i : ℕ) (rest : List Element)
    → drop i elems ≡ rest
    → All (IsLeadinAt elems) (repeated_mention i rest)
unfolding repeated_mention
repeated_mention-IsLeadinAt elems i [] h = tt
repeated_mention-IsLeadinAt elems i (e ∷ rest) h = elim (Bool-cases (is_reply_mention_text e)) [
  | inr fails ↦ rw (fails) tt
  | inl holds ↦ elim (Bool-cases (is_same_mention e (drop (spaces rest) rest))) [
    | inr other ↦ rw (holds, other) tt
    | inl same ↦
        rw (holds, same)
          (
            (e, ap first_of h, mention_leads e holds),
            spaces-IsLeadinAt elems (suc i) rest (rest_behind elems i e rest h),
          )
  ]
]

skips_loop-IsLeadinAt :
    (elems before rest : List Element)
    → AreBefore elems before
    → drop (length before) elems ≡ rest
    → All (IsLeadinAt elems) (skips_loop before rest)
unfolding skips_loop
skips_loop-IsLeadinAt elems before [] h e = tt
skips_loop-IsLeadinAt elems before (x ∷ rest) h e =
    let behind = rest_behind elems (length before) x rest e in
    let more = skips_loop-IsLeadinAt elems (x ∷ before) rest (ap first_of e, h) behind in
    elim (Bool-cases (is_reply_abstract x)) [
      | inr fails ↦ rw (fails) more
      | inl holds ↦
          let mention = repeated_mention-IsLeadinAt elems (suc (length before)) rest behind in
          rw (holds) (
            All-append (IsLeadinAt elems) (leadins before) _ (leadins-IsLeadinAt elems before h)
              (All-append (IsLeadinAt elems) _ _ mention more))
    ]

-- Whatever the elements are, each index that the display skips is the index of one of them, of type
-- 1, whose text is blank or a mention of 64 characters at most.
pub display_skip_indices-IsLeadinAt :
    (elems : List Element) → All (IsLeadinAt elems) (display_skip_indices elems)
unfolding display_skip_indices
display_skip_indices-IsLeadinAt elems = skips_loop-IsLeadinAt elems [] elems tt refl
