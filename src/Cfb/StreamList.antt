-- ===== src/Cfb/StreamList.antt =====
-- `list_streams` of cfb.rs: the entries it lists.
use qq_analyzer.Base.{
  ℕ, suc, ◌+◌, ◌<◌, List, [], ◌∷◌, false, not, ◌&&◌, ◌==◌, length, get_elem?, All, listed, Distinct,
  Bool-cases, ◌≡◌, inl, inr, refl, sym, ap, ◌∙◌, arith,
}
use qq_analyzer.Text.{Text, is_empty}
use qq_analyzer.Cfb.{DirEntry, CfbReader}
use qq_analyzer.Cfb.Walk.{walked, all_streams, list_streams, or_all}
use qq_analyzer.Cfb.WalkOnce.{IsStream, indices, walk-Step}
use qq_analyzer.Cfb.WalkFuel.{unvisited, unvisited-IsGood}

-- The fallback's streams are distinct: their indices grow.
record IsFrom (all_entries : List DirEntry) (idx : ℕ) (found : List (Text × ℕ)) : Type 0 where
  smaller : (x : ℕ) → x < idx → listed x (indices found) ≡ false
  once : Distinct (indices found)
  streams : All (IsStream all_entries) (indices found)

all_streams-IsFrom :
    (entries : List DirEntry) (idx : ℕ) (rest : List DirEntry)
    → ((i : ℕ) → get_elem? rest i ≡ get_elem? entries (idx + i))
    → IsFrom entries idx (all_streams idx rest)
all_streams-IsFrom entries idx [] h = record { smaller = λ x l. refl; once = tt; streams = tt }
all_streams-IsFrom entries idx (e ∷ es) h =
    let more = all_streams-IsFrom entries (suc idx) es (λ i.
      let k : idx + suc i ≡ suc idx + i = omega arith in h (suc i) ∙ ap (get_elem? entries) k) in
    elim (Bool-cases (not (is_empty e.name) && e.typ == 2)) [
      | inl found ↦
          let here : idx + 0 ≡ idx = omega arith in
          rw found (record {
            smaller = λ x l. ground (arith, more.smaller x (omega arith));
            once = (more.smaller idx (omega arith), more.once);
            streams = (
              (e, ap (get_elem? entries) (sym here) ∙ sym (h 0), ground arith, ground arith),
              more.streams,
            );
          })
      | inr other ↦ rw other (record {
        smaller = λ x l. more.smaller x (omega arith);
        once = more.once;
        streams = more.streams;
      })
    ]

abbrev pub AreStreams : List DirEntry → List (Text × ℕ) → Type 0
AreStreams entries found = Distinct (indices found) × All (IsStream entries) (indices found)

or_all-AreStreams :
    (entries : List DirEntry) (found : List (Text × ℕ))
    → AreStreams entries found
    → AreStreams entries (or_all entries found)
or_all-AreStreams entries [] h =
    let from =
      all_streams-IsFrom entries 0 entries
        (λ i. let e : i ≡ 0 + i = omega arith in ap (get_elem? entries) e) in
    (from.once, from.streams)
or_all-AreStreams entries (s ∷ ss) h = h

-- Whatever the directory's links are, list_streams lists no entry twice, and each index it lists is
-- that of a named entry of type 2.
pub list_streams-AreStreams : (reader : CfbReader) → AreStreams reader.entries (list_streams reader)
unfolding list_streams
list_streams-AreStreams reader =
    let step =
      walk-Step reader.entries (suc (length reader.entries)) 0 [] unvisited
        (unvisited-IsGood reader.entries) in
    or_all-AreStreams reader.entries (walked reader.entries) (step.0.once, step.0.streams)
