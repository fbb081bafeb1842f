-- ===== src/QqHash/Division.antt =====
-- Long division of a number in places, lowest first.
use native.Mathlib.Nat.{div-lt_iff_lt-mul, div-add-mod, mod-lt}
use qq_analyzer.Base.{
  ℕ, suc, ◌+◌, ◌*◌, ◌/◌, ◌%◌, ◌^◌, ◌<◌, ◌≤◌, List, [], ◌∷◌, length, All, ◌≡◌, refl, ap, arith,
}
use qq_analyzer.QqHash.{divide}

-- The number that places of a base stand for.
abbrev pub value : ℕ → List ℕ → ℕ
value base [] = 0
value base (d ∷ ds) = d + base * value base ds

-- Places of a base, and a base and a divisor small enough for the machine words.
abbrev pub ArePlaces : ℕ → List ℕ → Type 0
ArePlaces base = All (λ d. d < base)

below_product : (r d base by : ℕ) → r < by → d < base → r * base + d < base * by
below_product r d base by hr hd = grind arith

quotient-lt : (r d base by : ℕ) → r < by → d < base → 0 < by → (r * base + d) / by < base
quotient-lt r d base by hr hd h = (div-lt_iff_lt-mul h).1 (below_product r d base by hr hd)

module _ (base by : ℕ) (pos : 0 < by) (base_u16 : base ≤ 2 ^ 16) (by_u8 : by ≤ 2 ^ 8) where
  no_wrap : (r d : ℕ) → r < by → d < base → r * base + d < 2 ^ 24
  no_wrap r d hr hd = grind arith

  -- Division keeps the number, the remainder is below the divisor and the places stay places.
  pub record IsDivided (ds : List ℕ) : Type 0 where
    pub keeps : value base (divide base by ds).0 * by + (divide base by ds).1 ≡ value base ds
    pub below : (divide base by ds).1 < by
    pub places : ArePlaces base (divide base by ds).0
    pub same_length : length (divide base by ds).0 ≡ length ds

  divide-suc :
      (d : ℕ) (ds : List ℕ)
      → d < base
      → (divide base by ds).1 < by
      → divide base by (d ∷ ds) ≡ (
        (((divide base by ds).1 * base + d) / by) ∷ (divide base by ds).0,
        ((divide base by ds).1 * base + d) % by,
      )
  divide-suc d ds hd hr =
      let small = no_wrap (divide base by ds).1 d hr hd in
      let cur : ((divide base by ds).1 * base + d) % 2 ^ 32 ≡ (divide base by ds).1 * base + d =
        omega arith in
      let place : ((divide base by ds).1 * base + d) / by % 2 ^ 16
          ≡ ((divide base by ds).1 * base + d) / by =
        omega (arith, quotient-lt (divide base by ds).1 d base by hr hd pos) in
      unfold divide in rw (cur, place)

  keeps_step :
      (q r d v : ℕ)
      → q * by + r ≡ v
      → ((r * base + d) / by + base * q) * by + (r * base + d) % by ≡ d + base * v
  keeps_step q r d v e = omega (arith, div-add-mod (r * base + d) by, ap (λ (t : ℕ). base * t) e)

  IsDivided-step :
      (d : ℕ) (ds : List ℕ) → ArePlaces base (d ∷ ds) → IsDivided ds → IsDivided (d ∷ ds)
  IsDivided-step d ds h done =
      let e = divide-suc d ds h.0 done.below in
      record {
        keeps = rw e (
            keeps_step (value base (divide base by ds).0) (divide base by ds).1 d (value base ds)
              done.keeps);
        below = rw e (mod-lt _ pos);
        places = rw e (quotient-lt (divide base by ds).1 d base by done.below h.0 pos, done.places);
        same_length = rw e (ap suc done.same_length);
      }

  pub divide-IsDivided : (ds : List ℕ) → ArePlaces base ds → IsDivided ds
  divide-IsDivided [] h =
      unfold divide in record { keeps = omega arith; below = pos; places = tt; same_length = refl }
  divide-IsDivided (d ∷ ds) h = IsDivided-step d ds h (divide-IsDivided ds h.1)
