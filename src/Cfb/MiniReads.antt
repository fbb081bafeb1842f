-- ===== src/Cfb/MiniReads.antt =====
-- `mini_chain` of cfb.rs: its rounds, and chains that were laid out in the mini table.
use qq_analyzer.Base.{
  ℕ, zero, suc, ◌+◌, ◌≤◌, ◌<◌, List, [], ◌∷◌, none, some, Bool, true, false, ◌||◌, length,
  get_elem?, All, listed, Distinct, pigeonhole, Bool-cases, Option-cases, ◌≡◌, inl, inr, refl, sym,
  ap, ◌∙◌, arith,
}
use qq_analyzer.Cfb.{CfbReader, is_marker, end_of_chain}
use qq_analyzer.Cfb.Chain.{mini_loop, mini_chain}
use qq_analyzer.Cfb.ChainReads.{IsLinked, seen_apart, All-unseen}
use qq_analyzer.Cfb.WalkOnce.{get_elem?-lt}

abbrev stops : ℕ → List ℕ → Bool
stops s seen = is_marker s || listed s seen

mini_loop-stop :
    (table : List ℕ) (fuel s : ℕ) (seen : List ℕ)
    → stops s seen ≡ true
    → mini_loop table fuel s seen ≡ []
unfolding mini_loop
mini_loop-stop table zero s seen e = refl
mini_loop-stop table (suc fuel) s seen e = rw (e, mini_loop) refl

mini_loop-last :
    (table : List ℕ) (fuel s : ℕ) (seen : List ℕ)
    → stops s seen ≡ false
    → get_elem? table s ≡ none
    → mini_loop table fuel s seen ≡ []
unfolding mini_loop
mini_loop-last table zero s seen go e = refl
mini_loop-last table (suc fuel) s seen go e = rw (go, e, mini_loop) refl

mini_loop-next :
    (table : List ℕ) (fuel s next : ℕ) (seen : List ℕ)
    → stops s seen ≡ false
    → get_elem? table s ≡ some next
    → mini_loop table (suc fuel) s seen ≡ s ∷ mini_loop table fuel next (s ∷ seen)
unfolding mini_loop
mini_loop-next table fuel s next seen go e = rw (go, e, mini_loop) refl

abbrev IsSeen : List ℕ → List ℕ → Type 0
IsSeen table seen = Distinct seen × All (λ x. x < length table) seen

IsSeen-more :
    (table : List ℕ) (s next : ℕ) (seen : List ℕ)
    → stops s seen ≡ false
    → get_elem? table s ≡ some next
    → IsSeen table seen
    → IsSeen table (s ∷ seen)
IsSeen-more table s next seen go e h = ((ground arith, h.0), (get_elem?-lt table s e, h.1))

mini_loop-suc :
    (table : List ℕ) (fuel s : ℕ) (seen : List ℕ)
    → IsSeen table seen
    → length table < fuel + length seen
    → mini_loop table (suc fuel) s seen ≡ mini_loop table fuel s seen
mini_loop-suc table zero s seen h enough =
    absurd (omega (arith, pigeonhole (length table) seen h.0 h.1))
mini_loop-suc table (suc fuel) s seen h enough = elim (Bool-cases (stops s seen)) [
  | inl stop ↦
      mini_loop-stop table (suc (suc fuel)) s seen stop
      ∙ sym (mini_loop-stop table (suc fuel) s seen stop)
  | inr go ↦ elim (Option-cases (get_elem? table s)) [
    | inl e ↦
        mini_loop-last table (suc (suc fuel)) s seen go e
        ∙ sym (mini_loop-last table (suc fuel) s seen go e)
    | inr (next, e) ↦
        mini_loop-next table (suc fuel) s next seen go e
        ∙ ap (λ t. s ∷ t)
            (mini_loop-suc table fuel next (s ∷ seen) (IsSeen-more table s next seen go e h)
              (omega arith))
        ∙ sym (mini_loop-next table fuel s next seen go e)
  ]
]

-- The unbounded loop of mini_chain ends after at most as many rounds as the mini table has entries:
-- allowing it any number of further rounds gives the same sectors.
pub mini_chain-fuel :
    (reader : CfbReader) (start extra : ℕ)
    → mini_loop reader.mini_fat (extra + suc (length reader.mini_fat)) start []
      ≡ mini_chain reader start
unfolding mini_chain
mini_chain-fuel reader start zero =
    let e : zero + suc (length reader.mini_fat) ≡ suc (length reader.mini_fat) = omega arith in
    ap (λ k. mini_loop reader.mini_fat k start []) e
mini_chain-fuel reader start (suc extra) =
    let n = length reader.mini_fat in
    let e : suc extra + suc n ≡ suc (extra + suc n) = omega arith in
    ap (λ k. mini_loop reader.mini_fat k start []) e
    ∙ mini_loop-suc reader.mini_fat (extra + suc n) start [] (tt, tt) (omega arith)
    ∙ mini_chain-fuel reader start extra

mini_loop-IsLinked :
    (table : List ℕ) (s : ℕ) (more seen : List ℕ) (fuel : ℕ)
    → IsLinked table s more
    → All (λ x. is_marker x ≡ false) (s ∷ more)
    → Distinct (s ∷ more)
    → All (λ x. listed x seen ≡ false) (s ∷ more)
    → length (s ∷ more) ≤ fuel
    → mini_loop table fuel s seen ≡ s ∷ more
mini_loop-IsLinked table s more seen zero links ok d new enough = absurd (omega arith)
mini_loop-IsLinked table s [] seen (suc fuel) links ok d new enough =
    mini_loop-next table fuel s end_of_chain seen (ground (arith, ok.0, new.0)) links
    ∙ ap (λ t. s ∷ t) (mini_loop-stop table fuel end_of_chain (s ∷ seen) refl)
mini_loop-IsLinked table s (next ∷ more) seen (suc fuel) links ok d new enough =
    mini_loop-next table fuel s next seen (ground (arith, ok.0, new.0)) links.0
    ∙ ap (λ t. s ∷ t)
        (mini_loop-IsLinked table next more (s ∷ seen) fuel links.1 ok.1 d.1
          (seen_apart s seen (next ∷ more) d.0 new.1) (omega arith))

linked_inside :
    (table : List ℕ) (s : ℕ) (more : List ℕ)
    → IsLinked table s more
    → All (λ x. x < length table) (s ∷ more)
linked_inside table s [] h = (get_elem?-lt table s h, tt)
linked_inside table s (next ∷ more) h =
    (get_elem?-lt table s h.0, linked_inside table next more h.1)

-- Distinct mini sectors that are linked in the mini table are the chain of the first of them.
pub mini_chain-IsLinked :
    (reader : CfbReader) (s : ℕ) (more : List ℕ)
    → IsLinked reader.mini_fat s more
    → All (λ x. is_marker x ≡ false) (s ∷ more)
    → Distinct (s ∷ more)
    → mini_chain reader s ≡ s ∷ more
unfolding mini_chain
mini_chain-IsLinked reader s more links ok d =
    let few =
      pigeonhole (length reader.mini_fat) (s ∷ more) d
        (linked_inside reader.mini_fat s more links) in
    mini_loop-IsLinked reader.mini_fat s more [] (suc (length reader.mini_fat)) links ok d
      (All-unseen (s ∷ more)) (omega (arith, few))
