-- ===== src/Message/ExpandLimits.antt =====
-- `parse_info_mmp_items_value` of msg3_parser.rs: its limits.
use qq_analyzer.Base.{
  ℕ, zero, suc, ◌+◌, ◌≤◌, List, [], ◌∷◌, true, false, ◌==◌, max, Bool-cases, ◌≡◌, inl, inr, refl,
  ap, subst, arith,
}
use qq_analyzer.Msg3.Outcome.{Outcome, done, panicked, ◌>>=◌}
use qq_analyzer.Msg3.Records.{parse_td_ta_records_at}
use qq_analyzer.Message.Element.{Element, Crates}
use qq_analyzer.Message.Parse.{parse_msgcontent}
use qq_analyzer.Message.Expand.{
  MmpItems, no_more, mmp_item, Expanded, ItemHead, head_of, first_items, streams_of, items_loop,
  expand_at, expanded_items, parse_info_mmp_items_value, parse_info_mmp_items,
}

-- All items, those nested included, and the levels that they stand on.
abbrev pub count : MmpItems → ℕ
count no_more = 0
count (mmp_item head nested more) = 1 + count nested + count more

abbrev pub height : MmpItems → ℕ
height no_more = 0
height (mmp_item head nested more) = max (1 + height nested) (height more)

-- Every item that is expanded is taken off the number that may be, and `levels` are not exceeded.
abbrev WithinLimits : ℕ → ℕ → Outcome Expanded → Type 0
WithinLimits levels remaining panicked = Unit
WithinLimits levels remaining (done (items, left)) =
    (count items + left ≡ remaining) × (height items ≤ levels)

abbrev IsExpander : ℕ → (List ℕ → ℕ → Outcome Expanded) → Type 0
IsExpander levels expand =
    (bytes : List ℕ) (remaining : ℕ) → WithinLimits levels remaining (expand bytes remaining)

item_taken :
    (levels remaining : ℕ) (head : ItemHead) (nested : Expanded) (rest : Outcome Expanded)
    → WithinLimits levels remaining (done nested)
    → WithinLimits (suc levels) nested.1 rest
    → WithinLimits
        (suc levels)
        (suc remaining)
        (rest >>= (λ more. done (mmp_item head nested.0 more.0, more.1)))
item_taken levels remaining head (inner, left) panicked h more = tt
item_taken levels remaining head (inner, left) (done (items, left')) h more =
    (omega (arith, h, more), omega (arith, h, more))

module _ (crates : Crates) (expand : List ℕ → ℕ → Outcome Expanded) (levels : ℕ)
    (limits : IsExpander levels expand) where
  nested_taken :
      (remaining : ℕ) (head : ItemHead) (inner : Outcome Expanded) (next : ℕ → Outcome Expanded)
      → WithinLimits levels remaining inner
      → ((left : ℕ) → WithinLimits (suc levels) left (next left))
      → WithinLimits (suc levels) (suc remaining) (
          inner
          >>= (λ nested. next nested.1 >>= (λ more. done (mmp_item head nested.0 more.0, more.1))))
  nested_taken remaining head panicked next h rest = tt
  nested_taken remaining head (done nested) next h rest =
      item_taken levels remaining head nested (next nested.1) h (rest nested.1)

  parsed_taken :
      (index remaining : ℕ) (item : List ℕ) (elems : Outcome (List Element))
      (next : ℕ → Outcome Expanded)
      → ((left : ℕ) → WithinLimits (suc levels) left (next left))
      → WithinLimits (suc levels) (suc remaining) (
          elems >>= (λ es. expand item remaining >>= (λ nested.
            next nested.1
            >>= (λ more. done (mmp_item (head_of index item es) nested.0 more.0, more.1)))))
  parsed_taken index remaining item panicked next rest = tt
  parsed_taken index remaining item (done es) next rest =
      nested_taken remaining (head_of index item es) (expand item remaining) next
        (limits item remaining) rest

  items_loop-WithinLimits :
      (index : ℕ) (items : List (List ℕ)) (remaining : ℕ)
      → WithinLimits (suc levels) remaining (items_loop crates expand index items remaining)
  unfolding items_loop
  items_loop-WithinLimits index [] remaining = (omega arith, omega arith)
  items_loop-WithinLimits index (item ∷ items) zero = (omega arith, omega arith)
  items_loop-WithinLimits index (item ∷ items) (suc remaining) =
      parsed_taken index remaining item (parse_msgcontent crates item)
        (items_loop crates expand (suc index) items) (items_loop-WithinLimits (suc index) items)

module _ (crates : Crates) where
  abbrev items_in : List ℕ → List (List ℕ)
  items_in bytes = first_items (streams_of (parse_td_ta_records_at crates.gb18030 bytes 0 0 []))

  expand_at-spent :
      (levels : ℕ) (bytes : List ℕ) (remaining : ℕ)
      → (remaining == 0) ≡ true
      → expand_at crates (suc levels) bytes remaining ≡ done (no_more, remaining)
  unfolding expand_at
  expand_at-spent levels bytes remaining e = rw (e, expand_at) refl

  expand_at-items :
      (levels : ℕ) (bytes : List ℕ) (remaining : ℕ)
      → (remaining == 0) ≡ false
      → expand_at crates (suc levels) bytes remaining
        ≡ items_loop crates (expand_at crates levels) 0 (items_in bytes) remaining
  unfolding expand_at
  expand_at-items levels bytes remaining e = rw (e, expand_at) refl

  expand_at-WithinLimits : (levels : ℕ) → IsExpander levels (expand_at crates levels)
  expand_at-WithinLimits zero bytes remaining = unfold expand_at in (omega arith, omega arith)
  expand_at-WithinLimits (suc levels) bytes remaining = elim (Bool-cases (remaining == 0)) [
    | inl spent ↦ rw (expand_at-spent levels bytes remaining spent) (omega arith, omega arith)
    | inr some_left ↦ rw (expand_at-items levels bytes remaining some_left) (
        items_loop-WithinLimits crates (expand_at crates levels) levels
          (expand_at-WithinLimits levels) 0 (items_in bytes) remaining)
  ]

abbrev pub items_or_none : Outcome MmpItems → MmpItems
items_or_none panicked = no_more
items_or_none (done items) = items

items_within :
    (crates : Crates) (bytes : List ℕ) (items : MmpItems) (o : Outcome Expanded)
    → WithinLimits 8 2000 o
    → (o >>= expanded_items) ≡ done items
    → (count items ≤ 2000) × (height items ≤ 8)
items_within crates bytes items panicked h e = absurd (ground (arith, e))
items_within crates bytes items (done (found, left)) h e =
    subst (λ k. (count k ≤ 2000) × (height k ≤ 8)) (ap items_or_none e) (omega (arith, h), h.1)

-- However messages are forwarded in each other, at most 2000 items are expanded, on at most 8 levels.
pub parse_info_mmp_items-limits :
    (crates : Crates) (bytes : List ℕ) (items : MmpItems)
    → parse_info_mmp_items crates bytes ≡ done items
    → (count items ≤ 2000) × (height items ≤ 8)
unfolding parse_info_mmp_items parse_info_mmp_items_value
parse_info_mmp_items-limits crates bytes items e =
    items_within crates bytes items (expand_at crates 8 bytes 2000)
      (expand_at-WithinLimits crates 8 bytes 2000) e
