-- ===== src/Message/Written.antt =====
-- `parse_msgcontent` of msg3_parser.rs on elements that are written one after the other.
use qq_analyzer.Base.{
  ℕ, suc, ◌+◌, ◌<◌, List, [], ◌∷◌, ◌++◌, none, true, false, ◌&&◌, leb, ◌==◌, length, drop, put16,
  le16-put16, take-length, drop-length, length-append, ◌≡◌, refl, ap, ◌∙◌, arith,
}
use qq_analyzer.Msg3.Outcome.{done, ◌>>=◌}
use qq_analyzer.Msg3.Elements.{valid_element_type}
use qq_analyzer.Message.Element.{Crates}
use qq_analyzer.Message.Gaps.{raw_record_len, is_standard}
use qq_analyzer.Message.Parse.{
  collected, standard_element, standard_move, header_round, content_round,
}

-- The type and the payload of an element.
abbrev pub Written : Type 0
Written = ℕ × List ℕ

abbrev pub put_element : Written → List ℕ → List ℕ
put_element (t, p) tail = t ∷ put16 (length p) (p ++ tail)

abbrev pub put_elements : List Written → List ℕ → List ℕ
put_elements [] tail = tail
put_elements (w ∷ ws) tail = put_element w (put_elements ws tail)

-- What an element must satisfy to be read back; a long text is looked through for markers.
pub record IsWritten (w : Written) : Type 0 where
  pub standard : is_standard w.0 (length w.1) (length w.1) ≡ true
  pub narrow : length w.1 < 65536
  pub plain : (w.0 == 1 && leb 1024 (length w.1)) ≡ false

valid_type-plain : (t : ℕ) → valid_element_type t ≡ true → (84 == t) ≡ false
unfolding valid_element_type
valid_type-plain t h = ground arith

pub raw_record_len-valid :
    (t : ℕ) (rest : List ℕ) → valid_element_type t ≡ true → raw_record_len (t ∷ rest) ≡ none
unfolding raw_record_len
raw_record_len-valid t rest h = rw (valid_type-plain t h) refl

pub drop_element : (t : ℕ) (p tail : List ℕ) → drop (3 + length p) (put_element (t, p) tail) ≡ tail
drop_element t p tail =
    let e : 3 + length p ≡ suc (suc (suc (length p))) = omega arith in
    ap (λ k. drop k (put_element (t, p) tail)) e ∙ drop-length p tail

module _ (crates : Crates) where
  pub content_round-put_element :
      (pos t : ℕ) (p tail : List ℕ)
      → IsWritten (t, p)
      → content_round crates pos (put_element (t, p) tail) ≡ (
          collected t p >>= (λ got. done (
            standard_move crates pos
              (put_element (t, p) tail)
              (3 + length p)
              (standard_element crates pos t p got))))
  unfolding content_round
  content_round-put_element pos t p tail w =
      let valid : valid_element_type t ≡ true = let h = w.standard in ground arith in
      let len = le16-put16 (length p) (p ++ tail) w.narrow in
      let room : is_standard t (length p) (length (p ++ tail)) ≡ true =
        let h = w.standard in ground (arith, length-append p tail) in
      rw
        (
          raw_record_len-valid t (put16 (length p) (p ++ tail)) valid,
          content_round,
          len,
          w.plain,
          header_round,
          len,
          room,
          take-length p tail,
        )
        refl
