-- ===== src/Cfb/ChainLaws.antt =====
-- `chain` of cfb.rs: the shape of its result.
use qq_analyzer.Base.{
  ℕ, zero, suc, ◌≤◌, List, [], ◌∷◌, Option, some, Bool, true, false, not, ◌||◌, length, get_elem?,
  All, listed, Distinct, Bool-cases, Option-cases, ◌≡◌, inl, inr, refl, sym, ap, ◌∙◌, arith,
}
use qq_analyzer.Cfb.{CfbReader, is_marker, valid_sector}
use qq_analyzer.Cfb.Chain.{chain_loop, chain, max_steps}

-- A sector that a chain may take.
abbrev pub IsUsable : CfbReader → ℕ → Type 0
IsUsable reader sector = (is_marker sector ≡ false) × (valid_sector reader sector ≡ true)

-- Each sector is the entry of the table at the one before it.
abbrev pub Follows : List ℕ → ℕ → List ℕ → Type 0
Follows fat sector [] = Unit
Follows fat sector (next ∷ more) = (get_elem? fat sector ≡ some next) × Follows fat next more

abbrev pub Starts : List ℕ → ℕ → List ℕ → Type 0
Starts fat start [] = Unit
Starts fat start (s ∷ more) = (s ≡ start) × Follows fat s more

abbrev Unseen : List ℕ → List ℕ → Type 0
Unseen seen = All (λ x. listed x seen ≡ false)

pub record IsChain (reader : CfbReader) (steps start : ℕ) (seen out : List ℕ) : Type 0 where
  pub usable : All (IsUsable reader) out
  pub distinct : Distinct out
  pub unseen : Unseen seen out
  pub starts : Starts reader.fat start out
  pub at_most : length out ≤ steps

abbrev pub stops : CfbReader → ℕ → List ℕ → Bool
stops reader sector seen =
    is_marker sector || not (valid_sector reader sector) || listed sector seen

Unseen-tail :
    (s : ℕ) (seen xs : List ℕ) → Unseen (s ∷ seen) xs → Unseen seen xs × (listed s xs ≡ false)
Unseen-tail s seen [] h = (tt, refl)
Unseen-tail s seen (x ∷ xs) h =
    let (rest, out) = Unseen-tail s seen xs h.1 in
    ((ground (arith, h.0), rest), ground (arith, h.0))

Starts-next :
    (fat : List ℕ) (s next : ℕ) (out : List ℕ)
    → get_elem? fat s ≡ some next
    → Starts fat next out
    → Follows fat s out
Starts-next fat s next [] e h = tt
Starts-next fat s next (x ∷ xs) e h = (e ∙ ap some (sym h.0), h.1)

IsChain-one :
    (reader : CfbReader) (steps s : ℕ) (seen : List ℕ)
    → stops reader s seen ≡ false
    → IsChain reader (suc steps) s seen (s ∷ [])
IsChain-one reader steps s seen go = record {
  usable = ((ground arith, ground arith), tt);
  distinct = (refl, tt);
  unseen = (ground arith, tt);
  starts = (refl, tt);
  at_most = omega arith;
}

IsChain-step :
    (reader : CfbReader) (steps s next : ℕ) (seen out : List ℕ)
    → stops reader s seen ≡ false
    → get_elem? reader.fat s ≡ some next
    → IsChain reader steps next (s ∷ seen) out
    → IsChain reader (suc steps) s seen (s ∷ out)
IsChain-step reader steps s next seen out go e h =
    let (unseen, new) = Unseen-tail s seen out h.unseen in
    record {
      usable = ((ground arith, ground arith), h.usable);
      distinct = (new, h.distinct);
      unseen = (ground arith, unseen);
      starts = (refl, Starts-next reader.fat s next out e h.starts);
      at_most = omega (arith, h.at_most);
    }

IsChain-nil : (reader : CfbReader) (steps s : ℕ) (seen : List ℕ) → IsChain reader steps s seen []
IsChain-nil reader steps s seen = record {
  usable = tt;
  distinct = tt;
  unseen = tt;
  starts = tt;
  at_most = omega arith;
}

pub chain_loop-IsChain :
    (reader : CfbReader) (steps s : ℕ) (seen : List ℕ)
    → IsChain reader steps s seen (chain_loop reader steps s seen)
unfolding chain_loop
chain_loop-IsChain reader zero s seen = IsChain-nil reader zero s seen
chain_loop-IsChain reader (suc steps) s seen = elim (Bool-cases (stops reader s seen)) [
  | inl stop ↦ rw (stop, chain_loop) (IsChain-nil reader (suc steps) s seen)
  | inr go ↦ elim (Option-cases (get_elem? reader.fat s)) [
    | inl e ↦ rw (go, e, chain_loop) (IsChain-one reader steps s seen go)
    | inr (next, e) ↦
        rw (go, e, chain_loop)
          (IsChain-step reader steps s next seen (chain_loop reader steps next (s ∷ seen)) go e
            (chain_loop-IsChain reader steps next (s ∷ seen)))
  ]
]

-- The sectors of a chain are valid, are no end marks, never repeat, each is the table's entry at the
-- one before, and they are no more than the limit, or the number of sectors without one.
pub chain-IsChain :
    (reader : CfbReader) (start : ℕ) (limit : Option ℕ)
    → IsChain reader (max_steps reader limit) start [] (chain reader start limit)
unfolding chain
chain-IsChain reader start limit =
    elim (Bool-cases (is_marker start || not (valid_sector reader start))) [
      | inl stop ↦ rw stop (IsChain-nil reader (max_steps reader limit) start [])
      | inr go ↦ rw go (chain_loop-IsChain reader (max_steps reader limit) start [])
    ]
