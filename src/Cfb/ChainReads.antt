-- ===== src/Cfb/ChainReads.antt =====
-- `chain` of cfb.rs: its bound, and chains that were laid out in a table.
use qq_analyzer.Base.{
  ℕ, zero, suc, ◌+◌, ◌≤◌, ◌<◌, List, [], ◌∷◌, none, some, true, false, not, ◌||◌, if◌then◌else◌,
  length, get_elem?, All, listed, Distinct, pigeonhole, Bool-cases, Option-cases, ◌≡◌, inl, inr,
  refl, sym, ap, ◌∙◌, arith,
}
use qq_analyzer.Cfb.{CfbReader, is_marker, end_of_chain, valid_sector}
use qq_analyzer.Cfb.Chain.{chain_loop, chain}
use qq_analyzer.Cfb.ChainLaws.{IsUsable, stops}

-- Sectors linked in a table, the last of them marked as the end.
abbrev pub IsLinked : List ℕ → ℕ → List ℕ → Type 0
IsLinked fat s [] = get_elem? fat s ≡ some end_of_chain
IsLinked fat s (next ∷ more) = (get_elem? fat s ≡ some next) × IsLinked fat next more

chain_loop-stop :
    (reader : CfbReader) (steps s : ℕ) (seen : List ℕ)
    → stops reader s seen ≡ true
    → chain_loop reader steps s seen ≡ []
unfolding chain_loop
chain_loop-stop reader zero s seen e = refl
chain_loop-stop reader (suc steps) s seen e = rw (e, chain_loop) refl

chain_loop-next :
    (reader : CfbReader) (steps s next : ℕ) (seen : List ℕ)
    → stops reader s seen ≡ false
    → get_elem? reader.fat s ≡ some next
    → chain_loop reader (suc steps) s seen ≡ s ∷ chain_loop reader steps next (s ∷ seen)
unfolding chain_loop
chain_loop-next reader steps s next seen go e = rw (go, e, chain_loop) refl

chain_loop-last :
    (reader : CfbReader) (steps s : ℕ) (seen : List ℕ)
    → stops reader s seen ≡ false
    → get_elem? reader.fat s ≡ none
    → chain_loop reader (suc steps) s seen ≡ s ∷ []
unfolding chain_loop
chain_loop-last reader steps s seen go e = rw (go, e, chain_loop) refl

-- What the loop has seen: distinct sectors, all of them valid.
abbrev IsSeen : CfbReader → List ℕ → Type 0
IsSeen reader seen = Distinct seen × All (λ x. x < suc reader.max_sector) seen

IsSeen-more :
    (reader : CfbReader) (s : ℕ) (seen : List ℕ)
    → stops reader s seen ≡ false
    → IsSeen reader seen
    → IsSeen reader (s ∷ seen)
unfolding valid_sector
IsSeen-more reader s seen go h = ((ground arith, h.0), (ground arith, h.1))

-- Once there are steps for every valid sector that was not seen, one more step changes nothing.
chain_loop-suc :
    (reader : CfbReader) (steps s : ℕ) (seen : List ℕ)
    → IsSeen reader seen
    → suc reader.max_sector ≤ steps + length seen
    → chain_loop reader (suc steps) s seen ≡ chain_loop reader steps s seen
chain_loop-suc reader zero s seen h enough = elim (Bool-cases (stops reader s seen)) [
  | inl stop ↦ chain_loop-stop reader 1 s seen stop ∙ sym (chain_loop-stop reader 0 s seen stop)
  | inr go ↦
      let more = IsSeen-more reader s seen go h in
      absurd (omega (arith, pigeonhole (suc reader.max_sector) (s ∷ seen) more.0 more.1))
]
chain_loop-suc reader (suc steps) s seen h enough = elim (Bool-cases (stops reader s seen)) [
  | inl stop ↦
      chain_loop-stop reader (suc (suc steps)) s seen stop
      ∙ sym (chain_loop-stop reader (suc steps) s seen stop)
  | inr go ↦ elim (Option-cases (get_elem? reader.fat s)) [
    | inl e ↦
        chain_loop-last reader (suc steps) s seen go e
        ∙ sym (chain_loop-last reader steps s seen go e)
    | inr (next, e) ↦
        chain_loop-next reader (suc steps) s next seen go e
        ∙ ap (λ t. s ∷ t)
            (chain_loop-suc reader steps next (s ∷ seen) (IsSeen-more reader s seen go h)
              (omega arith))
        ∙ sym (chain_loop-next reader steps s next seen go e)
  ]
]

chain_loop-add :
    (reader : CfbReader) (extra s : ℕ)
    → chain_loop reader (extra + suc reader.max_sector) s []
      ≡ chain_loop reader (suc reader.max_sector) s []
chain_loop-add reader zero s =
    let e : zero + suc reader.max_sector ≡ suc reader.max_sector = omega arith in
    ap (λ k. chain_loop reader k s []) e
chain_loop-add reader (suc extra) s =
    let e : suc extra + suc reader.max_sector ≡ suc (extra + suc reader.max_sector) = omega arith in
    ap (λ k. chain_loop reader k s []) e
    ∙ chain_loop-suc reader (extra + suc reader.max_sector) s [] (tt, tt) (omega arith)
    ∙ chain_loop-add reader extra s

-- Without a limit, the bound of max_sector + 1 rounds never ends a chain: any larger limit gives the
-- same sectors, so that the chain ends at a mark, a repeated or invalid sector, or the table's end.
pub chain-bound :
    (reader : CfbReader) (start extra : ℕ)
    → chain reader start (some (extra + suc reader.max_sector)) ≡ chain reader start none
unfolding chain
chain-bound reader start extra =
    ap (λ t. if is_marker start || not (valid_sector reader start) then [] else t)
      (chain_loop-add reader extra start)

pub seen_apart :
    (s : ℕ) (seen xs : List ℕ)
    → listed s xs ≡ false
    → All (λ x. listed x seen ≡ false) xs
    → All (λ x. listed x (s ∷ seen) ≡ false) xs
seen_apart s seen [] new h = tt
seen_apart s seen (x ∷ xs) new h = (ground (arith, h.0), seen_apart s seen xs (ground arith) h.1)

chain_loop-IsLinked :
    (reader : CfbReader) (s : ℕ) (more seen : List ℕ) (steps : ℕ)
    → IsLinked reader.fat s more
    → All (IsUsable reader) (s ∷ more)
    → Distinct (s ∷ more)
    → All (λ x. listed x seen ≡ false) (s ∷ more)
    → length (s ∷ more) ≤ steps
    → chain_loop reader steps s seen ≡ s ∷ more
chain_loop-IsLinked reader s more seen zero links ok d new enough = absurd (omega arith)
chain_loop-IsLinked reader s [] seen (suc steps) links ok d new enough =
    chain_loop-next reader steps s end_of_chain seen (ground (arith, ok.0, new.0)) links
    ∙ ap (λ t. s ∷ t) (chain_loop-stop reader steps end_of_chain (s ∷ seen) refl)
chain_loop-IsLinked reader s (next ∷ more) seen (suc steps) links ok d new enough =
    chain_loop-next reader steps s next seen (ground (arith, ok.0, new.0)) links.0
    ∙ ap (λ t. s ∷ t)
        (chain_loop-IsLinked reader next more (s ∷ seen) steps links.1 ok.1 d.1
          (seen_apart s seen (next ∷ more) d.0 new.1) (omega arith))

usable_below :
    (reader : CfbReader) (xs : List ℕ)
    → All (IsUsable reader) xs
    → All (λ x. x < suc reader.max_sector) xs
unfolding valid_sector
usable_below reader [] h = tt
usable_below reader (x ∷ xs) h = (ground (arith, h.0), usable_below reader xs h.1)

pub All-unseen : (xs : List ℕ) → All (λ x. listed x [] ≡ false) xs
All-unseen [] = tt
All-unseen (x ∷ xs) = (refl, All-unseen xs)

-- Distinct usable sectors that are linked in the table are the chain of the first of them.
pub chain-IsLinked :
    (reader : CfbReader) (s : ℕ) (more : List ℕ)
    → IsLinked reader.fat s more
    → All (IsUsable reader) (s ∷ more)
    → Distinct (s ∷ more)
    → chain reader s none ≡ s ∷ more
unfolding chain
chain-IsLinked reader s more links ok d =
    let usable : (is_marker s || not (valid_sector reader s)) ≡ false = ground (arith, ok.0) in
    let few = pigeonhole (suc reader.max_sector) (s ∷ more) d (usable_below reader (s ∷ more) ok) in
    rw usable (
      chain_loop-IsLinked reader s more [] (suc reader.max_sector) links ok d
        (All-unseen (s ∷ more)) few)
