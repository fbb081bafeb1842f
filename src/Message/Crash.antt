-- ===== src/Message/Crash.antt =====
-- `parse_msgcontent` of msg3_parser.rs on an element whose payload makes a collector panic.
use qq_analyzer.Base.{
  ℕ, suc, ◌+◌, ◌*◌, ◌^◌, ◌-◌, ◌≤◌, ◌<◌, List, [], ◌∷◌, ◌++◌, All, length, length-append, ◌≡◌, refl,
  ap, ◌∙◌, arith,
}
use qq_analyzer.Msg3.Outcome.{Outcome, done, panicked, ◌>>=◌}
use qq_analyzer.Msg3.Varint.{put_varint}
use qq_analyzer.Msg3.ProtoStrings.{collect_proto_strings}
use qq_analyzer.Msg3.ProtoPanic.{sized_field, length-sized_field, collect_proto_strings-panics}
use qq_analyzer.Message.Element.{Element, Crates}
use qq_analyzer.Message.Parse.{
  collected, standard_move, standard_element, content_loop, parse_msgcontent, with_embedded,
}
use qq_analyzer.Message.Written.{
  Written, IsWritten, put_element, put_elements, content_round-put_element,
}
use qq_analyzer.Message.ReadBack.{
  IsHeader, AreUseful, made, width, in_order, in_order-cong, after_round, loop-next,
  scan-put_elements, length-put_elements,
}

collected-panics :
    (t : ℕ) (p : List ℕ) → collect_proto_strings p 0 [] ≡ panicked → collected t p ≡ panicked
unfolding collected
collected-panics t p h = rw h refl

module _ (crates : Crates) where
  stays_panicked : (o : Outcome Element) → ◌>>=◌ {B = List Element} o (λ e. panicked) ≡ panicked
  stays_panicked panicked = refl
  stays_panicked (done e) = refl

  in_order-panics :
      (pos : ℕ) (ws : List Written) → in_order crates pos ws (λ end. panicked) ≡ panicked
  in_order-panics pos [] = refl
  in_order-panics pos (w ∷ ws) =
      ap (λ (o : Outcome (List Element)). made crates pos w >>= (λ e. o >>= (λ es. done (e ∷ es))))
        (in_order-panics (pos + width w) ws)
      ∙ stays_panicked (made crates pos w)

  loop-panics :
      (fuel pos t : ℕ) (p tail : List ℕ)
      → IsWritten (t, p)
      → collect_proto_strings p 0 [] ≡ panicked
      → content_loop crates (suc fuel) pos (put_element (t, p) tail) ≡ panicked
  loop-panics fuel pos t p tail w h =
      let size : 3 ≤ length (put_element (t, p) tail) = omega arith in
      loop-next crates fuel pos (put_element (t, p) tail) size
      ∙ ap (after_round pos (put_element (t, p) tail) (content_loop crates fuel)) (
          content_round-put_element crates pos t p tail w
          ∙ ap
              (λ got. got >>= (λ c. done (
                standard_move crates pos (put_element (t, p) tail) (3 + length p)
                  (standard_element crates pos t p c))))
              (collected-panics t p h))

  -- A useful part of a message, then an element with a protobuf field whose length runs past
  -- 2 ^ 64, then anything: the parse of the message panics.
  pub parse_msgcontent-panics :
      (header : List ℕ) (ws : List Written) (t field n : ℕ) (rest tail : List ℕ)
      → IsHeader header
      → All IsWritten ws
      → AreUseful crates 20 ws
      → IsWritten (t, sized_field field n rest)
      → 1 ≤ field
      → field * 8 + 2 < 2 ^ 64
      → n < 2 ^ 64
      → 2 ^ 64 ≤ n + (length (put_varint 9 (field * 8 + 2)) + length (put_varint 9 n))
      → parse_msgcontent crates
          (header ++ put_elements ws (put_element (t, sized_field field n rest) tail))
        ≡ panicked
  unfolding parse_msgcontent
  parse_msgcontent-panics header ws t field n rest tail h written useful bad h1 hk hn over =
      let p = sized_field field n rest in
      let behind = put_element (t, p) tail in
      let all = header ++ put_elements ws behind in
      let small : length rest < 2 ^ 63 =
        omega (arith, bad.narrow, length-sized_field field n rest) in
      let panics = (collect_proto_strings-panics field n rest h1 hk hn over small).1 in
      let left = length all - length ws - 1 in
      let fuel : length all - length ws ≡ suc left = omega (
        arith,
        length-append header (put_elements ws behind),
        h.0,
        length-put_elements ws behind,
      ) in
      ap (λ o. o >>= (λ es. done (with_embedded all es)))
        (scan-put_elements crates header ws behind h written useful
          ∙ in_order-cong crates 20 ws
              (λ end. content_loop crates (length all - length ws) end behind) (λ end. panicked)
              (λ end.
                ap (λ k. content_loop crates k end behind) fuel
                ∙ loop-panics left end t p tail bad panics)
          ∙ in_order-panics 20 ws)
