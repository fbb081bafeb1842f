-- ===== src/Message/Scan.antt =====
-- `parse_msgcontent` of msg3_parser.rs: where the elements that it returns stand in the data.
use qq_analyzer.Base.{
  ℕ, zero, suc, ◌+◌, ◌≤◌, List, [], ◌∷◌, ◌++◌, Option, none, some, not, ◌&&◌, ltb, leb,
  if◌then◌else◌, length, take, drop, IsByte, IsBytes, All-drop, take-append-drop, length-take,
  ltb→le, Bool-cases, ◌≡◌, inl, inr, sym, ap, subst, ◌∙◌, arith,
}
use qq_analyzer.Text.{is_empty, lit, starts_with}
use qq_analyzer.Msg3.Outcome.{Outcome, done, panicked, ◌>>=◌}
use qq_analyzer.Message.Element.{Element, Crates}
use qq_analyzer.Message.Labels.{transport_only_label}
use qq_analyzer.Message.Embedded.{embedded_visible_elements}
use qq_analyzer.Message.Parse.{
  Move, push_move, has_summary, content_round, content_loop, with_embedded, scan_content,
  parse_msgcontent,
}
use qq_analyzer.Message.Layout.{element_bytes, AreLaid, AreLaid-gap}
use qq_analyzer.Message.RoundLaws.{IsMove, MovesWell, content_round-MovesWell}

abbrev IsLaidOut : ℕ → List ℕ → Outcome (List Element) → Type 0
IsLaidOut pos rest panicked = Unit
IsLaidOut pos rest (done es) = AreLaid pos rest es

front_laid :
    (n pos : ℕ) (rest : List ℕ) (e : Element) (es : List Element)
    → n ≤ length rest
    → e.offset ≡ pos
    → element_bytes e ≡ take n rest
    → AreLaid (pos + n) (drop n rest) es
    → AreLaid pos rest (e ∷ es)
front_laid n pos rest e es h at placed laid =
    let end : pos + n ≡ e.offset + length (element_bytes e) =
      omega (arith, at, ap length placed, length-take n rest) in
    (
      [],
      drop n rest,
      sym (take-append-drop n rest) ∙ ap (λ t. t ++ drop n rest) (sym placed),
      omega (arith, at),
      subst (λ k. AreLaid k (drop n rest) es) end laid,
    )

push-AreLaid :
    (pos n : ℕ) (rest : List ℕ) (pushed : Option Element) (es : List Element)
    → IsMove pos rest (pushed, n)
    → AreLaid (pos + n) (drop n rest) es
    → AreLaid pos rest (push_move pushed es)
push-AreLaid pos n rest none es m laid = AreLaid-gap n pos rest es m.within laid
push-AreLaid pos n rest (some e) es m laid =
    front_laid n pos rest e es m.within m.placed.0 m.placed.1 laid

pushed-IsLaidOut :
    (pos : ℕ) (rest : List ℕ) (m : Move) (more : Outcome (List Element))
    → IsMove pos rest m
    → IsLaidOut (pos + m.1) (drop m.1 rest) more
    → IsLaidOut pos rest (more >>= (λ es. done (push_move m.0 es)))
pushed-IsLaidOut pos rest m panicked moved laid = tt
pushed-IsLaidOut pos rest m (done es) moved laid = push-AreLaid pos m.1 rest m.0 es moved laid

round-IsLaidOut :
    (pos : ℕ) (rest : List ℕ) (r : Outcome Move) (next : ℕ → List ℕ → Outcome (List Element))
    → MovesWell pos rest r
    → ((n : ℕ) → IsLaidOut (pos + n) (drop n rest) (next (pos + n) (drop n rest)))
    → IsLaidOut pos rest
        (r >>= (λ m. next (pos + m.1) (drop m.1 rest) >>= (λ es. done (push_move m.0 es))))
round-IsLaidOut pos rest panicked next moved laid = tt
round-IsLaidOut pos rest (done m) next moved laid =
    pushed-IsLaidOut pos rest m (next (pos + m.1) (drop m.1 rest)) moved (laid m.1)

module _ (crates : Crates) where
  loop-IsLaidOut :
      (fuel pos : ℕ) (rest : List ℕ)
      → IsBytes rest
      → IsLaidOut pos rest (content_loop crates fuel pos rest)
  unfolding content_loop
  loop-IsLaidOut zero pos rest ok = tt
  loop-IsLaidOut (suc fuel) pos rest ok = elim (Bool-cases (ltb (length rest) 3)) [
    | inl stop ↦ rw (stop, content_loop) tt
    | inr go ↦
        rw (go, content_loop)
          (round-IsLaidOut pos rest (content_round crates pos rest) (content_loop crates fuel)
            (content_round-MovesWell crates pos rest ok (ltb→le (length rest) 3 go))
            (λ n. loop-IsLaidOut fuel (pos + n) (drop n rest) (All-drop IsByte n rest ok)))
  ]

  abbrev content_start : List ℕ → ℕ
  content_start bytes = if leb 20 (length bytes) && starts_with (lit "MSG") bytes then 20 else 0

  scan-IsLaidOut : (bytes : List ℕ) → IsBytes bytes → IsLaidOut 0 bytes (scan_content crates bytes)
  scan-IsLaidOut bytes ok =
      elim (Bool-cases (leb 20 (length bytes) && starts_with (lit "MSG") bytes)) [
        | inl header ↦
            let fits : 20 ≤ length bytes = ground arith in
            rw header (
              widen (content_loop crates (length bytes) 20 (drop 20 bytes)) fits
                (loop-IsLaidOut (length bytes) 20 (drop 20 bytes) (All-drop IsByte 20 bytes ok)))
        | inr bare ↦ rw bare (loop-IsLaidOut (length bytes) 0 bytes ok)
      ]
    where
      widen :
          (o : Outcome (List Element))
          → 20 ≤ length bytes
          → IsLaidOut 20 (drop 20 bytes) o
          → IsLaidOut 0 bytes o
      widen panicked fits laid = tt
      widen (done es) fits laid = AreLaid-gap 20 0 bytes es fits laid

  -- The elements of a parse: those that the scan found, and the embedded ones where no element has a
  -- summary and no label of a message without a body fits.
  pub record IsParse (bytes : List ℕ) (es : List Element) : Type 0 where
    pub scanned : List Element
    pub laid : AreLaid 0 bytes scanned
    pub whole : es ≡ (
        if not (has_summary scanned) && is_empty (transport_only_label scanned)
        then scanned ++ embedded_visible_elements bytes
        else scanned)

  with_embedded-IsParse :
      (bytes : List ℕ) (es : List Element) (scan : Outcome (List Element))
      → IsLaidOut 0 bytes scan
      → (scan >>= (λ out. done (with_embedded bytes out))) ≡ done es
      → IsParse bytes es
  with_embedded-IsParse bytes es panicked laid e = absurd (ground arith)
  with_embedded-IsParse bytes es (done out) laid e = record {
    scanned = out;
    laid = laid;
    whole = ground (arith, e);
  }

  pub parse_msgcontent-IsParse :
      (bytes : List ℕ) (es : List Element)
      → IsBytes bytes
      → parse_msgcontent crates bytes ≡ done es
      → IsParse bytes es
  unfolding parse_msgcontent
  parse_msgcontent-IsParse bytes es ok e =
      with_embedded-IsParse bytes es (scan_content crates bytes) (scan-IsLaidOut bytes ok) e
