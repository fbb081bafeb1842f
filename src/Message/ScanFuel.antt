-- ===== src/Message/ScanFuel.antt =====
-- `parse_msgcontent` of msg3_parser.rs: the rounds of its loop.
use qq_analyzer.Base.{
  ℕ, zero, suc, ◌+◌, ◌≤◌, List, [], true, ltb, ltb→le, length, drop, length-drop, IsByte, IsBytes,
  All-drop, Bool-cases, ◌≡◌, inl, inr, refl, ap, sym, ◌∙◌, arith,
}
use qq_analyzer.Msg3.Outcome.{Outcome, done, panicked, ◌>>=◌}
use qq_analyzer.Message.Element.{Element, Crates}
use qq_analyzer.Message.Parse.{Move, push_move, content_round, content_loop}
use qq_analyzer.Message.RoundLaws.{MovesWell, content_round-MovesWell}
use qq_analyzer.Message.ReadBack.{after_round, loop-next}

after_round-cong :
    (pos : ℕ) (rest : List ℕ) (f g : ℕ → List ℕ → Outcome (List Element)) (r : Outcome Move)
    → MovesWell pos rest r
    → ((n : ℕ) → 1 ≤ n → n ≤ length rest → f (pos + n) (drop n rest) ≡ g (pos + n) (drop n rest))
    → after_round pos rest f r ≡ after_round pos rest g r
after_round-cong pos rest f g panicked moved h = refl
after_round-cong pos rest f g (done m) moved h =
    ap (λ o. o >>= (λ es. done (push_move m.0 es))) (h m.1 moved.forward moved.within)

module _ (crates : Crates) where
  loop-stop :
      (fuel pos : ℕ) (rest : List ℕ)
      → ltb (length rest) 3 ≡ true
      → content_loop crates fuel pos rest ≡ done []
  unfolding content_loop
  loop-stop zero pos rest h = refl
  loop-stop (suc fuel) pos rest h = rw (h, content_loop) refl

  content_loop-suc :
      (fuel pos : ℕ) (rest : List ℕ)
      → IsBytes rest
      → length rest ≤ fuel
      → content_loop crates (suc fuel) pos rest ≡ content_loop crates fuel pos rest
  content_loop-suc zero pos rest ok h =
      let stop : ltb (length rest) 3 ≡ true = ground arith in
      loop-stop 1 pos rest stop ∙ sym (loop-stop 0 pos rest stop)
  content_loop-suc (suc fuel) pos rest ok h = elim (Bool-cases (ltb (length rest) 3)) [
    | inl stop ↦ loop-stop (suc (suc fuel)) pos rest stop ∙ sym (loop-stop (suc fuel) pos rest stop)
    | inr go ↦
        let size = ltb→le (length rest) 3 go in
        loop-next crates (suc fuel) pos rest size
        ∙ after_round-cong pos rest (content_loop crates (suc fuel)) (content_loop crates fuel)
            (content_round crates pos rest) (content_round-MovesWell crates pos rest ok size)
            (λ n h1 fits.
              content_loop-suc fuel (pos + n) (drop n rest) (All-drop IsByte n rest ok)
                (omega (arith, length-drop n rest)))
        ∙ sym (loop-next crates fuel pos rest size)
  ]

  -- Every round of the scan moves on by a byte at least: with as many rounds as there are bytes,
  -- further ones give the same elements.
  pub content_loop-fuel :
      (extra pos : ℕ) (rest : List ℕ)
      → IsBytes rest
      → content_loop crates (extra + length rest) pos rest
        ≡ content_loop crates (length rest) pos rest
  content_loop-fuel zero pos rest ok =
      let e : zero + length rest ≡ length rest = omega arith in
      ap (λ k. content_loop crates k pos rest) e
  content_loop-fuel (suc extra) pos rest ok =
      let e : suc extra + length rest ≡ suc (extra + length rest) = omega arith in
      ap (λ k. content_loop crates k pos rest) e
      ∙ content_loop-suc (extra + length rest) pos rest ok (omega arith)
      ∙ content_loop-fuel extra pos rest ok
