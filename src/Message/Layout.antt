-- ===== src/Message/Layout.antt =====
-- An abstract view of message content: elements that stand in the data in order, with gaps between.
use qq_analyzer.Base.{
  ℕ, ◌+◌, ◌≤◌, List, [], ◌∷◌, ◌++◌, ◌==◌, if◌then◌else◌, length, take, drop, put16,
  take-append-drop, length-take, length-append, ◌≡◌, sym, ap, ◌∙◌, arith,
}
use mathlib.Core.List.{append_assoc}
use qq_analyzer.Message.Element.{Element}

-- The bytes an element stands for: a standard element has a type and a length before its payload.
abbrev pub element_bytes : Element → List ℕ
element_bytes e = if e.typ == 0 then e.payload else e.typ ∷ put16 (length e.payload) e.payload

-- The data from `pos` on is a gap, the bytes of the first element, and so on; after the last one,
-- anything. Each element has its place as its offset.
abbrev pub AreLaid : ℕ → List ℕ → List Element → Type 0
AreLaid pos rest [] = Unit
AreLaid pos rest (e ∷ es) =
    (gap : List ℕ) × (tail : List ℕ) × (rest ≡ gap ++ (element_bytes e ++ tail))
    × (e.offset ≡ pos + length gap)
    × AreLaid (e.offset + length (element_bytes e)) tail es

-- Bytes before the first element widen its gap.
pub AreLaid-gap :
    (n pos : ℕ) (rest : List ℕ) (es : List Element)
    → n ≤ length rest
    → AreLaid (pos + n) (drop n rest) es
    → AreLaid pos rest es
AreLaid-gap n pos rest [] h laid = tt
AreLaid-gap n pos rest (e ∷ es) h (gap, tail, split, at, more) = (
  take n rest ++ gap,
  tail,
  sym (take-append-drop n rest)
      ∙ ap (λ t. take n rest ++ t) split
      ∙ sym (append_assoc (take n rest) gap (element_bytes e ++ tail)),
  omega (arith, at, length-append (take n rest) gap, length-take n rest),
  more,
)
