-- ===== src/QqHash/Value.antt =====
-- Numbers in places: bounds, uniqueness, and the outer loop of the conversion.
use native.Mathlib.Nat.{pow-suc}
use Prim.Native.Nat.pow
use native.Mathlib.Decide.{dec_lt}
use qq_analyzer.Base.{
  ℕ, zero, suc, ◌+◌, ◌*◌, ◌%◌, ◌^◌, ◌<◌, ◌≤◌, List, [], ◌∷◌, false, any, length, ◌≡◌, refl, sym, ap,
  ap₂, arith,
}
use qq_analyzer.QqHash.{divide, divide_out, is_nonzero}
use qq_analyzer.QqHash.Division.{value, ArePlaces, divide-IsDivided}

pub value-lt : (base : ℕ) (ds : List ℕ) → ArePlaces base ds → value base ds < base ^ length ds
value-lt base [] h = rw (pow.zero base) (omega arith)
value-lt base (d ∷ ds) h = rw (pow-suc base (length ds)) (grind (arith, value-lt base ds h.1, h.0))

next_multiple : (b u v : ℕ) → u < v → b * u + b ≤ b * v
next_multiple b u v h = grind arith

not_less : (b x y u v : ℕ) → x < b → x + b * u ≡ y + b * v → u < v → ⊥
not_less b x y u v hx e h = omega (arith, next_multiple b u v h)

-- `x + b * u` determines its digit `x` and the rest `u`.
high_unique : (b x y u v : ℕ) → x < b → y < b → x + b * u ≡ y + b * v → u ≡ v
high_unique b x y u v hx hy e = elim (dec_lt u v) [
  | yes less ↦ absurd (not_less b x y u v hx e less)
  | no more ↦ elim (dec_lt v u) [
    | yes less ↦ absurd (not_less b y x v u hy (sym e) less)
    | no same ↦ omega arith
  ]
]

low_unique : (b x y u v : ℕ) → x < b → y < b → x + b * u ≡ y + b * v → x ≡ y
low_unique b x y u v hx hy e = omega (arith, ap (λ (t : ℕ). b * t) (high_unique b x y u v hx hy e))

-- A number has one form of a given length.
pub value_injective :
    (base : ℕ) (ds es : List ℕ)
    → ArePlaces base ds
    → ArePlaces base es
    → length ds ≡ length es
    → value base ds ≡ value base es
    → ds ≡ es
value_injective base [] [] h k l e = refl
value_injective base [] (y ∷ es) h k l e = absurd (omega arith)
value_injective base (x ∷ ds) [] h k l e = absurd (omega arith)
value_injective base (x ∷ ds) (y ∷ es) h k l e =
    ap₂ ◌∷◌ (low_unique base x y (value base ds) (value base es) h.0 k.0 e) (
      value_injective base ds es h.1 k.1 (omega arith)
        (high_unique base x y (value base ds) (value base es) h.0 k.0 e))

zero_product : (b u : ℕ) → 0 < b → b * u ≡ 0 → u ≡ 0
zero_product b u h e = grind arith

pub zero_value : (base : ℕ) (ds : List ℕ) → 0 < base → value base ds ≡ 0 → any is_nonzero ds ≡ false
zero_value base [] h e = refl
zero_value base (d ∷ ds) h e =
    ground (arith, zero_value base ds h, zero_product base (value base ds) h)

module _ (base by : ℕ) (pos : 0 < by) (base_u16 : base ≤ 2 ^ 16) (by_u8 : by ≤ 2 ^ 8) where
  pub record IsDividedOut (n : ℕ) (ds : List ℕ) : Type 0 where
    pub keeps :
        value by (divide_out n base by ds).0 + by ^ n * value base (divide_out n base by ds).1
        ≡ value base ds
    pub digits : ArePlaces by (divide_out n base by ds).0
    pub counted : length (divide_out n base by ds).0 ≡ n
    pub places : ArePlaces base (divide_out n base by ds).1

  divide_out-suc :
      (n : ℕ) (ds : List ℕ)
      → (divide base by ds).1 < by
      → divide_out (suc n) base by ds ≡ (
        (divide base by ds).1 ∷ (divide_out n base by (divide base by ds).0).0,
        (divide_out n base by (divide base by ds).0).1,
      )
  divide_out-suc n ds h =
      let byte : (divide base by ds).1 % 2 ^ 8 ≡ (divide base by ds).1 = omega arith in
      unfold divide_out in rw byte

  pub divide_out-IsDividedOut : (n : ℕ) (ds : List ℕ) → ArePlaces base ds → IsDividedOut n ds
  divide_out-IsDividedOut zero ds h =
      unfold divide_out in
      record { keeps = rw (pow.zero by) (omega arith); digits = tt; counted = refl; places = h }
  divide_out-IsDividedOut (suc n) ds h =
      let step = divide-IsDivided base by pos base_u16 by_u8 ds h in
      let more = divide_out-IsDividedOut n (divide base by ds).0 step.places in
      let e = divide_out-suc n ds step.below in
      record {
        keeps = rw (e, pow-suc by n) (omega (arith, ap (λ (t : ℕ). t * by) more.keeps, step.keeps));
        digits = rw e (step.below, more.digits);
        counted = rw e (ap suc more.counted);
        places = rw e more.places;
      }
