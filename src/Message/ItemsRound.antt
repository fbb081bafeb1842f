-- ===== src/Message/ItemsRound.antt =====
-- `split_mmp_msgpack_stream` of msg3_parser.rs and the stream that it splits.
use qq_analyzer.Base.{
  ℕ, ◌-◌, ◌≤◌, ◌<◌, List, [], ◌∷◌, ◌++◌, some, Bool, true, false, not, ◌||◌, ltb, ◌==◌, length,
  drop, le32, put32, le32-put32, All, take-length, drop-length, length-append, ◌≡◌, refl, ap, ◌∙◌,
  arith,
}
use qq_analyzer.Text.{lit, starts_with}
use qq_analyzer.Text.Find.{starts_with-append}
use qq_analyzer.Message.Items.{items_or_none, split_items, split_mmp_msgpack_stream}

-- The stream: how many items, how many bytes follow, then each item behind its length.
abbrev pub put_items : List (List ℕ) → List ℕ
put_items [] = []
put_items (item ∷ more) = put32 (length item) (item ++ put_items more)

abbrev pub put_stream : List (List ℕ) → List ℕ
put_stream items = put32 (length items) (put32 (length (put_items items)) (put_items items))

-- An item of a stream: a message with its header's first 8 bytes at least.
pub record IsItem (item : List ℕ) : Type 0 where
  pub long : 8 ≤ length item
  pub narrow : length item < 4294967296
  pub marked : starts_with (lit "MSG") item ≡ true

split_items-put_items :
    (items : List (List ℕ))
    → All IsItem items
    → split_items (length items) (put_items items) ≡ some items
unfolding split_items
split_items-put_items [] h = refl
split_items-put_items (item ∷ more) h =
    let tail = item ++ put_items more in
    let len = le32-put32 (length item) tail h.0.narrow in
    let marked = starts_with-append (lit "MSG") item (put_items more) h.0.marked in
    let goes : (ltb (length (put32 (length item) tail)) 4
          || ltb (length item) 8
          || ltb (length tail) (length item)
          || not (starts_with (lit "MSG") tail))
        ≡ false =
      let long = h.0.long in ground (arith, length-append item (put_items more), marked) in
    rw
      (
        len,
        goes,
        split_items,
        len,
        take-length item (put_items more),
        drop-length item (put_items more),
      )
      (rw (split_items-put_items more h.1) refl)

abbrev pub refused : List ℕ → Bool
refused bytes =
    ltb (length bytes) 8
    || le32 bytes == 0
    || ltb 200 (le32 bytes)
    || not (le32 (drop 4 bytes) == length bytes - 8)

pub stream-refused : (bytes : List ℕ) → refused bytes ≡ true → split_mmp_msgpack_stream bytes ≡ []
unfolding split_mmp_msgpack_stream
stream-refused bytes e = rw (e, split_mmp_msgpack_stream) refl

pub stream-split :
    (bytes : List ℕ)
    → refused bytes ≡ false
    → split_mmp_msgpack_stream bytes ≡ items_or_none (split_items (le32 bytes) (drop 8 bytes))
unfolding split_mmp_msgpack_stream
stream-split bytes e = rw (e, split_mmp_msgpack_stream) refl

-- A stream of 1 to 200 items splits into its items.
pub split_mmp_msgpack_stream-put_stream :
    (items : List (List ℕ))
    → 1 ≤ length items
    → length items ≤ 200
    → length (put_items items) < 4294967296
    → All IsItem items
    → split_mmp_msgpack_stream (put_stream items) ≡ items
split_mmp_msgpack_stream-put_stream items h1 h200 narrow each =
    let body = put_items items in
    let count = le32-put32 (length items) (put32 (length body) body) (omega (arith, h200)) in
    let total = le32-put32 (length body) body narrow in
    let goes : refused (put_stream items) ≡ false = ground (arith, count, total) in
    stream-split (put_stream items) goes
    ∙ ap (λ k. items_or_none (split_items k body)) count
    ∙ ap items_or_none (split_items-put_items items each)
