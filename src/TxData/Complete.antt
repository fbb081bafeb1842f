-- ===== src/TxData/Complete.antt =====
-- `decode_txdata_fields` of txdata_codec.rs: which inputs it reports complete.
use native.Mathlib.Decide.{dec_lt}
use mathlib.Core.Logic.{◌↔◌}
use qq_analyzer.Base.{
  length-drop, ap₂, ℕ, ◌≤◌, List, [], ◌∷◌, Bool, true, length, drop, le16, put16, IsBytes, All, ◌≡◌,
  inl, inr, refl, sym, ap, ◌∙◌, arith,
}
use qq_analyzer.Text.{Text}
use qq_analyzer.TxData.Fields.{decode_txdata_fields}
use qq_analyzer.TxData.Layout.{RawField, Fits, put_fields}
use qq_analyzer.TxData.Record.{put_record, le16_front, decode-put_record, IsFront, decode-IsFront}

nil_of : (xs : List ℕ) → length xs ≡ 0 → xs ≡ []
nil_of [] e = refl
nil_of (x ∷ xs) e = absurd (omega arith)

module _ (gb18030 : List ℕ → Text × Bool) where
  layout_complete :
      (b : List ℕ) (fs : List RawField)
      → length fs ≤ 200
      → All Fits fs
      → b ≡ put_record fs
      → (decode_txdata_fields gb18030 b).complete ≡ true
  layout_complete b fs h fits e = rw e (ap (λ t. t.complete) (decode-put_record gb18030 fs h fits))

  complete_outcome :
      (b : List ℕ) (front : IsFront gb18030 b)
      → (decode_txdata_fields gb18030 b).complete ≡ true
      → (length front.raw ≡ le16 b) × (front.rest ≡ [])
  complete_outcome b front done = elim front.outcome [
    | inl (_, all, none_left) ↦ (all, none_left)
    | inr (inl (not_done, _, _)) ↦ cc
    | inr (inr (not_done, _, _)) ↦ cc
  ]

  complete_many :
      (b : List ℕ)
      → IsBytes b
      → 2 ≤ length b
      → le16 b ≤ 200
      → (decode_txdata_fields gb18030 b).complete ≡ true
      → IsFront gb18030 b
      → (fs : List RawField) × (length fs ≤ 200) × All Fits fs × (b ≡ put_record fs)
  complete_many b bytes h2 h200 done front =
      let (all, none_left) = complete_outcome b front done in
      (
        front.raw,
        rw all h200,
        front.fits,
        sym (le16_front b bytes h2)
            ∙ ap (λ t. put16 (le16 b) t) (front.at_front ∙ ap (put_fields front.raw) none_left)
            ∙ ap (λ n. put16 n (put_fields front.raw [])) (sym all),
      )

  complete_bounds :
      (b : List ℕ)
      → (decode_txdata_fields gb18030 b).complete ≡ true
      → (2 ≤ length b) × (le16 b ≤ 200) × (le16 b ≡ 0 → length b ≡ 2)
  unfolding decode_txdata_fields
  complete_bounds b done = ground arith

  complete_layout :
      (b : List ℕ)
      → IsBytes b
      → (decode_txdata_fields gb18030 b).complete ≡ true
      → (fs : List RawField) × (length fs ≤ 200) × All Fits fs × (b ≡ put_record fs)
  complete_layout b bytes done =
      let (h2, h200, empty) = complete_bounds b done in
      elim (dec_lt 0 (le16 b)) [
        | yes some_fields ↦
            complete_many b bytes h2 h200 done (decode-IsFront gb18030 b bytes h2 some_fields h200)
        | no no_fields ↦
            let zero_count : le16 b ≡ 0 = omega arith in
            (
              [],
              omega arith,
              tt,
              sym (le16_front b bytes h2)
                  ∙ ap₂ put16 zero_count
                      (nil_of (drop 2 b) (omega (arith, length-drop 2 b, empty zero_count))),
            )
      ]

  -- `complete` holds exactly of the layouts of at most 200 fields.
  pub complete_iff :
      (b : List ℕ)
      → IsBytes b
      → ((decode_txdata_fields gb18030 b).complete ≡ true)
        ↔ ((fs : List RawField) × (length fs ≤ 200) × All Fits fs × (b ≡ put_record fs))
  complete_iff b bytes =
      (complete_layout b bytes, λ (fs, h, fits, e). layout_complete b fs h fits e)
