-- ===== src/QqHash/Symbols.antt =====
-- Symbols of the alphabet and their places.
use qq_analyzer.Base.{
  ℕ, suc, ◌+◌, ◌<◌, List, [], ◌∷◌, map, Option, none, some, Bool, true, false, subst, length,
  get_or, ◌==◌, ◌≡◌, refl, ap, ap₂, arith, table, table_entry, ==_iff, Option-cases, Bool-cases,
  inl, inr,
}
use qq_analyzer.Text.{Text}
use qq_analyzer.QqHash.{alphabet, to_ascii_upper, digit_of, digits_of, position_from}
use qq_analyzer.QqHash.Division.{ArePlaces}

unfoldable pub symbol : ℕ → ℕ
symbol d = get_or alphabet d 0

pub is_digit : ℕ → Option ℕ → Bool
is_digit d none = false
is_digit d (some e) = e == d

pub is_digit→eq : (d : ℕ) (o : Option ℕ) → is_digit d o ≡ true → o ≡ some d
unfolding is_digit
is_digit→eq d none h = cc
is_digit→eq d (some e) h = ap some ((==_iff e d).0 h)

-- Every symbol of the alphabet is read as its own place.
pub digit_table : table (λ d. is_digit d (digit_of (symbol d))) 48 ≡ true
unfolding table digit_of symbol is_digit
digit_table = refl

pub digit_of-symbol : (d : ℕ) → d < 48 → digit_of (symbol d) ≡ some d
digit_of-symbol d h = is_digit→eq d _ (table_entry _ 48 d h digit_table)

pub digits_of-symbols : (ds : List ℕ) → ArePlaces 48 ds → digits_of (map symbol ds) ≡ some ds
unfolding digits_of
digits_of-symbols [] h = refl
digits_of-symbols (d ∷ ds) h = rw (digit_of-symbol d h.0, digits_of-symbols ds h.1, digits_of)

-- The places that are read from a text: their symbols are the text in upper case.
pub position_lem :
    (i c : ℕ) (xs : List ℕ) {d : ℕ}
    → position_from i c xs ≡ some d
    → (k : ℕ) × (d ≡ i + k) × (k < length xs) × (get_or xs k 0 ≡ c)
position_lem i c [] e = cc
position_lem i c (x ∷ xs) {d} e = elim (Bool-cases (x == c)) [
  | inl hit ↦ (0, ground arith, omega arith, (==_iff x c).0 hit)
  | inr miss ↦
      let (k, ed, lt, at) = position_lem (suc i) c xs {d = d} (ground arith) in
      (suc k, omega arith, omega arith, at)
]

pub digit_lem : (c d : ℕ) → digit_of c ≡ some d → (d < 48) × (symbol d ≡ to_ascii_upper c)
unfolding digit_of symbol
digit_lem c d e =
    let (k, ed, lt, at) = position_lem 0 (to_ascii_upper c) alphabet {d = d} e in
    let same : d ≡ k = omega arith in (omega arith, rw same at)

pub record AreDigits (text : Text) (ds : List ℕ) : Type 0 where
  pub places : ArePlaces 48 ds
  pub symbols : map symbol ds ≡ map to_ascii_upper text
  pub same_length : length ds ≡ length text

pub AreDigits-cons :
    (c d : ℕ) (cs : Text) (ds : List ℕ)
    → (d < 48) × (symbol d ≡ to_ascii_upper c)
    → AreDigits cs ds
    → AreDigits (c ∷ cs) (d ∷ ds)
AreDigits-cons c d cs ds h rest = record {
  places = (h.0, rest.places);
  symbols = ap₂ ◌∷◌ h.1 rest.symbols;
  same_length = ap suc rest.same_length;
}

pub digits_of-cons :
    (c : ℕ) (cs : Text) (ds : List ℕ)
    → digits_of (c ∷ cs) ≡ some ds
    → (d : ℕ) × (es : List ℕ) × (digit_of c ≡ some d) × (digits_of cs ≡ some es) × (d ∷ es ≡ ds)
digits_of-cons c cs ds e = elim (Option-cases (digit_of c)) [
  | inl no_digit ↦ unfold digits_of in ground arith
  | inr (d, ed) ↦ elim (Option-cases (digits_of cs)) [
    | inl no_rest ↦ unfold digits_of in ground arith
    | inr (es, ee) ↦ (d, es, ed, ee, unfold digits_of in ground arith)
  ]
]

pub digits_lem : (text : Text) (ds : List ℕ) → digits_of text ≡ some ds → AreDigits text ds
digits_lem [] [] e = record { places = tt; symbols = refl; same_length = refl }
digits_lem [] (d ∷ ds) e = unfold digits_of in cc
digits_lem (c ∷ cs) ds e =
    let (d, es, ed, ee, eds) = digits_of-cons c cs ds e in
    subst (AreDigits (c ∷ cs)) eds
      (AreDigits-cons c d cs es (digit_lem c d ed) (digits_lem cs es ee))
