-- ===== src/Message/ReadBack.antt =====
-- `parse_msgcontent` of msg3_parser.rs: elements that were written are read back, and a bad one makes
-- the whole message panic.
use qq_analyzer.Base.{
  ℕ, zero, suc, ◌+◌, ◌-◌, ◌≤◌, List, [], ◌∷◌, ◌++◌, true, leb, length, drop, drop-length,
  length-append, le→ltb, ◌≡◌, refl, sym, ap, ◌∙◌, arith,
}
use qq_analyzer.Text.{lit, starts_with}
use qq_analyzer.Text.Find.{starts_with-append}
use qq_analyzer.Msg3.Outcome.{Outcome, done, panicked, ◌>>=◌}
use qq_analyzer.Message.Element.{Element, Crates}
use qq_analyzer.Message.Summary.{useful_element}
use qq_analyzer.Message.Parse.{
  Collected, Move, collected, standard_element, standard_move, content_round, content_loop,
  with_embedded, scan_content, parse_msgcontent, push_move,
}
use qq_analyzer.Message.Written.{
  Written, IsWritten, put_element, put_elements, drop_element, content_round-put_element,
}
use qq_analyzer.Base.{All}

abbrev pub width : Written → ℕ
width (t, p) = 3 + length p

abbrev pub IsUseful : Outcome Element → Type 0
IsUseful panicked = Unit
IsUseful (done e) = useful_element e ≡ true

pub length-put_elements :
    (ws : List Written) (tail : List ℕ) → length ws ≤ length (put_elements ws tail)
length-put_elements [] tail = omega arith
length-put_elements (w ∷ ws) tail =
    omega (arith, length-put_elements ws tail, length-append w.1 (put_elements ws tail))

-- The loop on what a round answers.
abbrev pub after_round :
    ℕ → List ℕ → (ℕ → List ℕ → Outcome (List Element)) → Outcome Move → Outcome (List Element)
after_round pos rest next r =
    r >>= (λ m. next (pos + m.1) (drop m.1 rest) >>= (λ es. done (push_move m.0 es)))

-- The content of a message: a header of 20 bytes that starts with MSG, then the elements.
abbrev pub IsHeader : List ℕ → Type 0
IsHeader header = (length header ≡ 20) × (starts_with (lit "MSG") header ≡ true)

pub drop-header : (header rest : List ℕ) → length header ≡ 20 → drop 20 (header ++ rest) ≡ rest
drop-header header rest h = ap (λ k. drop k (header ++ rest)) (sym h) ∙ drop-length header rest

module _ (crates : Crates) where
  -- The element at `pos`, by the collectors and the summary of the code.
  abbrev pub made : ℕ → Written → Outcome Element
  made pos (t, p) = collected t p >>= (λ got. done (standard_element crates pos t p got))

  -- The elements in order, then those of `next` from the end on.
  abbrev pub in_order : ℕ → List Written → (ℕ → Outcome (List Element)) → Outcome (List Element)
  in_order pos [] next = next pos
  in_order pos (w ∷ ws) next =
      made pos w >>= (λ e. in_order (pos + width w) ws next >>= (λ es. done (e ∷ es)))

  abbrev pub AreUseful : ℕ → List Written → Type 0
  AreUseful pos [] = Unit
  AreUseful pos (w ∷ ws) = IsUseful (made pos w) × AreUseful (pos + width w) ws

  pub loop-next :
      (fuel pos : ℕ) (rest : List ℕ)
      → 3 ≤ length rest
      → content_loop crates (suc fuel) pos rest
        ≡ after_round pos rest (content_loop crates fuel) (content_round crates pos rest)
  unfolding content_loop
  loop-next fuel pos rest h = rw (le→ltb (length rest) 3 h, content_loop) refl

  taken :
      (pos t : ℕ) (p tail : List ℕ) (got : Outcome Collected)
      (next : ℕ → List ℕ → Outcome (List Element))
      → IsUseful (got >>= (λ c. done (standard_element crates pos t p c)))
      → after_round pos (put_element (t, p) tail) next (
          got >>= (λ c. done (
            standard_move crates pos
              (put_element (t, p) tail)
              (3 + length p)
              (standard_element crates pos t p c))))
        ≡ ((got >>= (λ c. done (standard_element crates pos t p c)))
            >>= (λ e. next (pos + (3 + length p)) tail >>= (λ es. done (e ∷ es))))
  taken pos t p tail panicked next useful = refl
  taken pos t p tail (done c) next useful = rw (useful, drop_element t p tail) refl

  pub content_loop-put_elements :
      (fuel pos : ℕ) (ws : List Written) (tail : List ℕ)
      → All IsWritten ws
      → AreUseful pos ws
      → content_loop crates (length ws + fuel) pos (put_elements ws tail)
        ≡ in_order pos ws (λ end. content_loop crates fuel end tail)
  content_loop-put_elements fuel pos [] tail written useful =
      let e : 0 + fuel ≡ fuel = omega arith in ap (λ k. content_loop crates k pos tail) e
  content_loop-put_elements fuel pos ((t, p) ∷ ws) tail written useful =
      let e : suc (length ws) + fuel ≡ suc (length ws + fuel) = omega arith in
      let behind = put_elements ws tail in
      let more = content_loop-put_elements fuel (pos + (3 + length p)) ws tail written.1 useful.1 in
      let size : 3 ≤ length (put_element (t, p) behind) = omega arith in
      ap (λ k. content_loop crates k pos (put_element (t, p) behind)) e
      ∙ loop-next (length ws + fuel) pos (put_element (t, p) behind) size
      ∙ ap (after_round pos (put_element (t, p) behind) (content_loop crates (length ws + fuel)))
          (content_round-put_element crates pos t p behind written.0)
      ∙ taken pos t p behind (collected t p) (content_loop crates (length ws + fuel)) useful.0
      ∙ ap (λ o. made pos (t, p) >>= (λ e. o >>= (λ es. done (e ∷ es)))) more

  loop-nil : (fuel pos : ℕ) → content_loop crates fuel pos [] ≡ done []
  unfolding content_loop
  loop-nil zero pos = refl
  loop-nil (suc fuel) pos = refl

  scan_content-header :
      (header rest : List ℕ)
      → IsHeader header
      → scan_content crates (header ++ rest) ≡ content_loop crates (length (header ++ rest)) 20 rest
  scan_content-header header rest h =
      let long : leb 20 (length (header ++ rest)) ≡ true =
        ground (arith, length-append header rest, h.0) in
      rw (long, starts_with-append (lit "MSG") header rest h.1, drop-header header rest h.0) refl

  pub scan-put_elements :
      (header : List ℕ) (ws : List Written) (tail : List ℕ)
      → IsHeader header
      → All IsWritten ws
      → AreUseful 20 ws
      → scan_content crates (header ++ put_elements ws tail)
        ≡ in_order 20 ws (λ end.
          content_loop crates (length (header ++ put_elements ws tail) - length ws) end tail)
  scan-put_elements header ws tail h written useful =
      let all = header ++ put_elements ws tail in
      let fuel : length all ≡ length ws + (length all - length ws) =
        omega (arith, length-append header (put_elements ws tail), length-put_elements ws tail) in
      scan_content-header header (put_elements ws tail) h
      ∙ ap (λ k. content_loop crates k 20 (put_elements ws tail)) fuel
      ∙ content_loop-put_elements (length all - length ws) 20 ws tail written useful

  pub in_order-cong :
      (pos : ℕ) (ws : List Written) (f g : ℕ → Outcome (List Element))
      → ((k : ℕ) → f k ≡ g k)
      → in_order pos ws f ≡ in_order pos ws g
  in_order-cong pos [] f g h = h pos
  in_order-cong pos (w ∷ ws) f g h =
      ap (λ o. made pos w >>= (λ e. o >>= (λ es. done (e ∷ es))))
        (in_order-cong (pos + width w) ws f g h)

  -- A header, then useful elements: the parse is these elements in order.
  pub parse_msgcontent-put_elements :
      (header : List ℕ) (ws : List Written)
      → IsHeader header
      → All IsWritten ws
      → AreUseful 20 ws
      → parse_msgcontent crates (header ++ put_elements ws []) ≡ (
          in_order 20 ws (λ end. done [])
          >>= (λ es. done (with_embedded (header ++ put_elements ws []) es)))
  unfolding parse_msgcontent
  parse_msgcontent-put_elements header ws h written useful =
      let all = header ++ put_elements ws [] in
      ap (λ o. o >>= (λ es. done (with_embedded all es)))
        (scan-put_elements header ws [] h written useful
          ∙ in_order-cong 20 ws (λ end. content_loop crates (length all - length ws) end [])
              (λ end. done []) (λ end. loop-nil (length all - length ws) end))
