-- ===== src/Msg3/FrameRead.antt =====
-- One field in `td_record_len` of msg3_parser.rs and in `decode_txdata_fields`.
use qq_analyzer.Base.{
  ℕ, ◌+◌, ◌≤◌, List, some, Bool, length, take, drop, le16, le32, byte_at, le→ltb, drop-drop,
  length-drop, ◌≡◌, sym, ap, ◌∙◌, arith,
}
use qq_analyzer.Text.{Text}
use qq_analyzer.TxData.Fields.{TxDataField, read_field, make_field}
use qq_analyzer.Msg3.Frames.{td_field_len}

-- What `td_field_len` has tested when it returns.
record Tested (rest : List ℕ) (w : ℕ) : Type 0 where
  header : 3 ≤ length rest
  named : le16 (drop 1 rest) + 4 ≤ length (drop 3 rest)
  valued :
      le32 (drop (le16 (drop 1 rest)) (drop 3 rest))
      ≤ length (drop (le16 (drop 1 rest) + 4) (drop 3 rest))
  total : w ≡ 3 + le16 (drop 1 rest) + 4 + le32 (drop (le16 (drop 1 rest)) (drop 3 rest))

field_len-Tested : (rest : List ℕ) (w : ℕ) → td_field_len rest ≡ some w → Tested rest w
unfolding td_field_len
field_len-Tested rest w e = ground arith

-- The bytes behind a field, reached step by step and at once.
behind :
    (n v : ℕ) (rest : List ℕ) → drop v (drop 4 (drop n (drop 3 rest))) ≡ drop (3 + n + 4 + v) rest
behind n v rest =
    ap (λ t. drop v (drop 4 t)) (drop-drop 3 n rest)
    ∙ ap (drop v) (drop-drop (3 + n) 4 rest)
    ∙ drop-drop (3 + n + 4) v rest

module _ (gb18030 : List ℕ → Text × Bool) where
  abbrev pub field_at : List ℕ → TxDataField
  field_at rest =
      let n = le16 (drop 1 rest) in
      let sized = drop n (drop 3 rest) in
      make_field gb18030 (byte_at rest 0) (take n (drop 3 rest)) (le32 sized)
        (take (le32 sized) (drop 4 sized))

  read_field-Tested :
      (rest : List ℕ) (w : ℕ)
      → Tested rest w
      → read_field gb18030 rest
        ≡ some (
          field_at rest,
          drop
              (le32 (drop (le16 (drop 1 rest)) (drop 3 rest)))
              (drop 4 (drop (le16 (drop 1 rest)) (drop 3 rest))),
        )
  unfolding read_field
  read_field-Tested rest w t =
      let n = le16 (drop 1 rest) in
      rw (
        le→ltb (length rest) 3 t.header,
        le→ltb (length (drop 3 rest)) n (omega (arith, t.named)),
        le→ltb (length (drop n (drop 3 rest))) 4
            (omega (arith, t.named, length-drop n (drop 3 rest))),
        le→ltb (length (drop 4 (drop n (drop 3 rest)))) (le32 (drop n (drop 3 rest)))
            (rw (drop-drop n 4 (drop 3 rest)) t.valued),
      )

  -- The length of a field that can be skipped is what `read_field` takes.
  pub field_taken :
      (rest : List ℕ) (w : ℕ)
      → td_field_len rest ≡ some w
      → (read_field gb18030 rest ≡ some (field_at rest, drop w rest)) × (w ≤ length rest)
  field_taken rest w e =
      let t = field_len-Tested rest w e in
      (
        read_field-Tested rest w t
            ∙ ap (λ r. some (field_at rest, r))
                (behind _ _ rest ∙ ap (λ k. drop k rest) (sym t.total)),
        omega (
          arith,
          t.header,
          t.named,
          t.valued,
          t.total,
          length-drop 3 rest,
          length-drop (le16 (drop 1 rest) + 4) (drop 3 rest),
        ),
      )
