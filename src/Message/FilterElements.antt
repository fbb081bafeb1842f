-- ===== src/Message/FilterElements.antt =====
-- `msgcontent_maybe_contains_multi_msg` of msg3_parser.rs on elements that are written one after the
-- other.
use qq_analyzer.Base.{
  ℕ, zero, suc, ◌+◌, ◌-◌, ◌≤◌, List, [], ◌∷◌, ◌++◌, Bool, true, false, leb, ◌==◌, if◌then◌else◌,
  length, drop, All, any, le→ltb, le16-put16, length-append, put16, Bool-cases, ◌≡◌, inl, inr, refl,
  ap, ◌∙◌, arith,
}
use qq_analyzer.Text.{lit}
use qq_analyzer.Text.Find.{starts_with-append}
use qq_analyzer.Msg3.Elements.{valid_element_type}
use qq_analyzer.Message.Gaps.{is_standard}
use qq_analyzer.Message.Prefilter.{
  Verdict, found, move_on, filter_header, filter_round, filter_loop,
  msgcontent_maybe_contains_multi_msg,
}
use qq_analyzer.Message.Written.{
  Written, IsWritten, put_element, put_elements, drop_element, raw_record_len-valid,
}
use qq_analyzer.Message.ReadBack.{IsHeader, drop-header, length-put_elements}

abbrev pub is_multi_msg : Written → Bool
is_multi_msg w = w.0 == 0x1e

filter_round-put_element :
    (t : ℕ) (p tail : List ℕ)
    → IsWritten (t, p)
    → filter_round (put_element (t, p) tail) ≡ (if t == 0x1e then found else move_on (3 + length p))
unfolding filter_round
filter_round-put_element t p tail w =
    let valid : valid_element_type t ≡ true = let h = w.standard in ground arith in
    let len = le16-put16 (length p) (p ++ tail) w.narrow in
    let room : is_standard t (length p) (length (p ++ tail)) ≡ true =
      let h = w.standard in ground (arith, length-append p tail) in
    rw
      (
        raw_record_len-valid t (put16 (length p) (p ++ tail)) valid,
        filter_round,
        len,
        w.plain,
        filter_header,
        len,
        room,
      )
      refl

abbrev after_verdict : ℕ → List ℕ → Verdict → Bool
after_verdict fuel rest found = true
after_verdict fuel rest (move_on n) = filter_loop fuel (drop n rest)

filter_loop-next :
    (fuel : ℕ) (rest : List ℕ)
    → 3 ≤ length rest
    → filter_loop (suc fuel) rest ≡ after_verdict fuel rest (filter_round rest)
unfolding filter_loop
filter_loop-next fuel rest h = rw (le→ltb (length rest) 3 h, filter_loop) (same (filter_round rest))
  where
    same :
        (v : Verdict)
        → elim v [ found ↦ true | move_on n ↦ filter_loop fuel (drop n rest) ]
          ≡ after_verdict fuel rest v
    same found = refl
    same (move_on n) = refl

filter_loop-nil : (fuel : ℕ) → filter_loop fuel [] ≡ false
unfolding filter_loop
filter_loop-nil zero = refl
filter_loop-nil (suc fuel) = refl

filter_loop-put_elements :
    (fuel : ℕ) (ws : List Written)
    → All IsWritten ws
    → filter_loop (length ws + fuel) (put_elements ws []) ≡ any is_multi_msg ws
filter_loop-put_elements fuel [] written = filter_loop-nil (0 + fuel)
filter_loop-put_elements fuel ((t, p) ∷ ws) written =
    let e : suc (length ws) + fuel ≡ suc (length ws + fuel) = omega arith in
    let all = put_element (t, p) (put_elements ws []) in
    let size : 3 ≤ length all = omega arith in
    ap (λ k. filter_loop k all) e
    ∙ filter_loop-next (length ws + fuel) all size
    ∙ ap (after_verdict (length ws + fuel) all)
        (filter_round-put_element t p (put_elements ws []) written.0)
    ∙ elim (Bool-cases (t == 0x1e)) [
      | inl multi ↦ rw multi refl
      | inr other ↦
          rw (other, drop_element t p (put_elements ws []))
            (filter_loop-put_elements fuel ws written.1)
    ]

-- A header, then elements: the test finds out whether one of them is a forwarded message.
pub maybe_contains-put_elements :
    (header : List ℕ) (ws : List Written)
    → IsHeader header
    → All IsWritten ws
    → msgcontent_maybe_contains_multi_msg (header ++ put_elements ws []) ≡ any is_multi_msg ws
unfolding msgcontent_maybe_contains_multi_msg
maybe_contains-put_elements header ws h written =
    let rest = put_elements ws [] in
    let all = header ++ rest in
    let long : leb 20 (length all) ≡ true = ground (arith, length-append header rest, h.0) in
    let fuel : length all ≡ length ws + (length all - length ws) =
      omega (arith, length-append header rest, length-put_elements ws []) in
    rw (long, starts_with-append (lit "MSG") header rest h.1, drop-header header rest h.0)
      (ap (λ k. filter_loop k rest) fuel
        ∙ filter_loop-put_elements (length all - length ws) ws written)
