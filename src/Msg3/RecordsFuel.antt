-- ===== src/Msg3/RecordsFuel.antt =====
-- `parse_td_ta_records_at` of msg3_parser.rs: the rounds of its loop.
use qq_analyzer.Base.{
  ℕ, zero, suc, ◌+◌, ◌≤◌, List, Option, none, some, Bool, true, false, not, ◌||◌, ltb, length, drop,
  length-drop, Bool-cases, ◌≡◌, inl, inr, refl, sym, ap, ◌∙◌, arith,
}
use qq_analyzer.Text.{Text, starts_with}
use qq_analyzer.Msg3.Frames.{td_marker, ta_marker, td_record_len, ta_record_len}
use qq_analyzer.Msg3.Records.{TdRecord, td_round, ta_round, records_round, records_loop}

module _ (gb18030 : List ℕ → Text × Bool)
    (nested : List ℕ → ℕ → List TdRecord → List TdRecord) where
  td_forward :
      (len : Option ℕ) (rest : List ℕ) (offset : ℕ) (out : List TdRecord)
      → 1 ≤ (td_round gb18030 nested len rest offset out).0
  td_forward none rest offset out = omega arith
  td_forward (some len) rest offset out = omega arith

  ta_forward :
      (len : Option ℕ) (rest : List ℕ) (offset : ℕ) (out : List TdRecord)
      → 1 ≤ (ta_round gb18030 nested len rest offset out).0
  ta_forward none rest offset out = omega arith
  ta_forward (some len) rest offset out = omega arith

  round_forward :
      (rest : List ℕ) (offset : ℕ) (out : List TdRecord)
      → 1 ≤ (records_round gb18030 nested rest offset out).0
  unfolding records_round
  round_forward rest offset out = elim (Bool-cases (starts_with td_marker rest)) [
    | inl td ↦ rw td (td_forward (td_record_len rest 0) rest offset out)
    | inr no_td ↦ elim (Bool-cases (starts_with ta_marker rest)) [
      | inl ta ↦ rw (no_td, ta) (ta_forward (ta_record_len rest 0) rest offset out)
      | inr neither ↦ rw (no_td, neither) (omega arith)
    ]
  ]

  abbrev stops : List ℕ → List TdRecord → Bool
  stops rest out = ltb (length rest) 4 || not (ltb (length out) 400)

  loop-stop :
      (fuel : ℕ) (rest : List ℕ) (offset : ℕ) (out : List TdRecord)
      → stops rest out ≡ true
      → records_loop gb18030 nested fuel rest offset out ≡ out
  unfolding records_loop
  loop-stop zero rest offset out e = refl
  loop-stop (suc fuel) rest offset out e = rw (e, records_loop) refl

  loop-go :
      (fuel : ℕ) (rest : List ℕ) (offset : ℕ) (out : List TdRecord)
      → stops rest out ≡ false
      → records_loop gb18030 nested (suc fuel) rest offset out
        ≡ records_loop gb18030 nested fuel
            (drop (records_round gb18030 nested rest offset out).0 rest)
            (offset + (records_round gb18030 nested rest offset out).0)
            (records_round gb18030 nested rest offset out).1
  unfolding records_loop
  loop-go fuel rest offset out e = rw (e, records_loop) refl

  records_loop-suc :
      (fuel : ℕ) (rest : List ℕ) (offset : ℕ) (out : List TdRecord)
      → length rest ≤ fuel
      → records_loop gb18030 nested (suc fuel) rest offset out
        ≡ records_loop gb18030 nested fuel rest offset out
  records_loop-suc zero rest offset out h =
      let stop : stops rest out ≡ true = ground arith in
      loop-stop 1 rest offset out stop ∙ sym (loop-stop 0 rest offset out stop)
  records_loop-suc (suc fuel) rest offset out h = elim (Bool-cases (stops rest out)) [
    | inl stop ↦
        loop-stop (suc (suc fuel)) rest offset out stop
        ∙ sym (loop-stop (suc fuel) rest offset out stop)
    | inr go ↦
        let moved = (records_round gb18030 nested rest offset out).0 in
        loop-go (suc fuel) rest offset out go
        ∙ records_loop-suc fuel (drop moved rest) (offset + moved)
            (records_round gb18030 nested rest offset out).1
            (omega (arith, length-drop moved rest, round_forward rest offset out))
        ∙ sym (loop-go fuel rest offset out go)
  ]

  -- Every round of the loop moves on by a byte at least: with as many rounds as the data has bytes,
  -- any number of further rounds gives the same records.
  pub records_loop-fuel :
      (extra : ℕ) (rest : List ℕ) (offset : ℕ) (out : List TdRecord)
      → records_loop gb18030 nested (extra + length rest) rest offset out
        ≡ records_loop gb18030 nested (length rest) rest offset out
  records_loop-fuel zero rest offset out =
      let e : zero + length rest ≡ length rest = omega arith in
      ap (λ k. records_loop gb18030 nested k rest offset out) e
  records_loop-fuel (suc extra) rest offset out =
      let e : suc extra + length rest ≡ suc (extra + length rest) = omega arith in
      ap (λ k. records_loop gb18030 nested k rest offset out) e
      ∙ records_loop-suc (extra + length rest) rest offset out (omega arith)
      ∙ records_loop-fuel extra rest offset out
