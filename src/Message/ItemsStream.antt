-- ===== src/Message/ItemsStream.antt =====
-- `split_mmp_msgpack_stream` of msg3_parser.rs: which bytes it splits.
use qq_analyzer.Base.{
  ℕ, zero, suc, ◌≤◌, List, [], ◌∷◌, ◌++◌, none, some, Bool, true, false, not, ◌||◌, ltb, length,
  take, drop, le32, put32, IsByte, IsBytes, All, All-drop, take-append-drop, length-take,
  length-drop, drop-drop, Bool-cases, Option-cases, ◌≡◌, inl, inr, refl, sym, ap, ap₂, subst, ◌∙◌,
  arith,
}
use qq_analyzer.Text.{lit, starts_with}
use qq_analyzer.TxData.Layout.{put32-le32, le32-lt}
use qq_analyzer.Message.Items.{cons_item, items_or_none, split_items, split_mmp_msgpack_stream}
use qq_analyzer.Message.ItemsRound.{
  put_items, put_stream, IsItem, refused, stream-refused, stream-split,
}

-- The items of bytes: they are written as the bytes, and each is a message.
record IsSplit (count : ℕ) (rest : List ℕ) (items : List (List ℕ)) : Type 0 where
  at_front : rest ≡ put_items items
  counted : length items ≡ count
  each : All IsItem items

abbrev stops : List ℕ → Bool
stops rest =
    ltb (length rest) 4
    || ltb (le32 rest) 8
    || ltb (length (drop 4 rest)) (le32 rest)
    || not (starts_with (lit "MSG") (drop 4 rest))

split_items-stop :
    (count : ℕ) (rest : List ℕ) → stops rest ≡ true → split_items (suc count) rest ≡ none
unfolding split_items
split_items-stop count rest e = rw (e, split_items) refl

split_items-go :
    (count : ℕ) (rest : List ℕ)
    → stops rest ≡ false
    → split_items (suc count) rest
      ≡ cons_item
          (take (le32 rest) (drop 4 rest))
          (split_items count (drop (le32 rest) (drop 4 rest)))
unfolding split_items
split_items-go count rest e = rw (e, split_items) refl

starts_with-take :
    (n : ℕ) (p text : List ℕ)
    → length p ≤ n
    → starts_with p text ≡ true
    → starts_with p (take n text) ≡ true
starts_with-take n [] text h e = refl
starts_with-take n (c ∷ p) [] h e = absurd (ground arith)
starts_with-take zero (c ∷ p) (b ∷ text) h e = absurd (omega arith)
starts_with-take (suc n) (c ∷ p) (b ∷ text) h e =
    let more = starts_with-take n p text (omega arith) in ground (arith, more)

cons-IsSplit :
    (count : ℕ) (rest : List ℕ) (more : List (List ℕ))
    → IsBytes rest
    → stops rest ≡ false
    → IsSplit count (drop (le32 rest) (drop 4 rest)) more
    → IsSplit (suc count) rest (take (le32 rest) (drop 4 rest) ∷ more)
cons-IsSplit count rest more ok go split =
    let n = le32 rest in
    let item = drop 4 rest in
    let room : 4 ≤ length rest = ground arith in
    let long : 8 ≤ n = ground arith in
    let fits : n ≤ length item = ground arith in
    let marked : starts_with (lit "MSG") item ≡ true = ground arith in
    let size : length (take n item) ≡ n = omega (arith, fits, length-take n item) in
    record {
      at_front =
          sym (put32-le32 rest ok room)
          ∙ ap₂ put32 (sym size)
              (sym (take-append-drop n item) ∙ ap (λ t. take n item ++ t) split.at_front);
      counted = ap suc split.counted;
      each = (
        record {
          long = omega (arith, long, size);
          narrow = omega (arith, size, le32-lt rest ok);
          marked = starts_with-take n (lit "MSG") item (omega (arith, long)) marked;
        },
        split.each,
      );
    }

split_items-left : (b : ℕ) (rest : List ℕ) → split_items 0 (b ∷ rest) ≡ none
unfolding split_items
split_items-left b rest = refl

split_items-IsSplit :
    (count : ℕ) (rest : List ℕ) (items : List (List ℕ))
    → IsBytes rest
    → split_items count rest ≡ some items
    → IsSplit count rest items
unfolding split_items
split_items-IsSplit zero [] items ok e =
    subst (IsSplit 0 []) (ap items_or_none e)
      (record { at_front = refl; counted = refl; each = tt })
split_items-IsSplit zero (b ∷ rest) items ok e =
    let n = split_items-left b rest in absurd (ground (arith, n))
split_items-IsSplit (suc count) rest items ok e = elim (Bool-cases (stops rest)) [
  | inl stop ↦ let n = split_items-stop count rest stop in absurd (ground (arith, n))
  | inr go ↦
      let behind = drop (le32 rest) (drop 4 rest) in
      let cut = split_items-go count rest go in
      elim (Option-cases (split_items count behind)) [
        | inl failed ↦
            let n = cut ∙ ap (cons_item (take (le32 rest) (drop 4 rest))) failed in
            absurd (ground (arith, n))
        | inr (more, found) ↦
            let same = cut ∙ ap (cons_item (take (le32 rest) (drop 4 rest))) found in
            subst (IsSplit (suc count) rest) (ap items_or_none (sym same ∙ e)) (
              cons-IsSplit count rest more ok go (
                split_items-IsSplit count behind more
                  (All-drop IsByte (le32 rest) (drop 4 rest) (All-drop IsByte 4 rest ok)) found))
      ]
]

-- What a stream's items say of its bytes.
pub record IsStream (bytes : List ℕ) (items : List (List ℕ)) : Type 0 where
  pub written : bytes ≡ put_stream items
  pub at_most : length items ≤ 200
  pub each : All IsItem items

split_items-IsStream :
    (bytes : List ℕ) (items : List (List ℕ))
    → IsBytes bytes
    → refused bytes ≡ false
    → IsSplit (le32 bytes) (drop 8 bytes) items
    → IsStream bytes items
split_items-IsStream bytes items ok go split =
    let long : 8 ≤ length bytes = ground arith in
    let total : le32 (drop 4 bytes) ≡ length (put_items items) =
      let size = ap length split.at_front in ground (arith, length-drop 8 bytes) in
    let count : le32 bytes ≡ length items = sym split.counted in
    record {
      written =
          sym (put32-le32 bytes ok (omega (arith, long)))
          ∙ ap₂ put32 count (
              sym (
                put32-le32 (drop 4 bytes) (All-drop IsByte 4 bytes ok)
                  (omega (arith, long, length-drop 4 bytes)))
              ∙ ap₂ put32 total (drop-drop 4 4 bytes ∙ split.at_front));
      at_most = ground (arith, count);
      each = split.each;
    }

-- Bytes that split into some items are the stream of these items, of which there are at most 200.
pub split_mmp_msgpack_stream-IsStream :
    (bytes item : List ℕ) (more : List (List ℕ))
    → IsBytes bytes
    → split_mmp_msgpack_stream bytes ≡ item ∷ more
    → IsStream bytes (item ∷ more)
split_mmp_msgpack_stream-IsStream bytes item more ok e = elim (Bool-cases (refused bytes)) [
  | inl no_stream ↦ let n = stream-refused bytes no_stream in absurd (ground (arith, n))
  | inr go ↦
      let cut = stream-split bytes go in
      elim (Option-cases (split_items (le32 bytes) (drop 8 bytes))) [
        | inl failed ↦ let n = cut ∙ ap items_or_none failed in absurd (ground (arith, n))
        | inr (items, found) ↦ subst (IsStream bytes) (sym (cut ∙ ap items_or_none found) ∙ e) (
            split_items-IsStream bytes items ok go (
              split_items-IsSplit (le32 bytes) (drop 8 bytes) items (All-drop IsByte 8 bytes ok)
                found))
      ]
]
