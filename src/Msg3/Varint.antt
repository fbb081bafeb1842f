-- ===== src/Msg3/Varint.antt =====
-- `read_varint`: base-128 numbers of at most ten bytes.
use native.Mathlib.Decide.{dec_lt}
use native.Mathlib.Nat.{div-add-mod, pow-suc, pow-le-pow_right}
use native.Mathlib.Numerals.{towards_suc}
use qq_analyzer.Base.{
  lt→ltb, le→ltb, Option-cases, ℕ, zero, suc, ◌+◌, ◌*◌, ◌/◌, ◌%◌, ◌^◌, ◌<◌, ◌≤◌, List, [], ◌∷◌,
  ◌++◌, Option, none, some, ltb, if◌then◌else◌, length, take, All, ◌≡◌, ◌⊎◌, inl, inr, ap, ◌∙◌,
  arith,
}

-- The rounds left, the shift, the value so far and the bytes from `off` on. The result is the
-- value and the bytes behind it; `off` moves on a failure too. A group is 7 bits, so that `|=` is
-- a sum, and a shift in u64 drops the bits from 64 on.
unfoldable pub varint_loop : ℕ → ℕ → ℕ → List ℕ → Option ℕ × List ℕ
varint_loop zero shift value rest = (none, rest)
varint_loop (suc rounds) shift value [] = (none, [])
varint_loop (suc rounds) shift value (b ∷ rest) =
    let value' = value + b % 128 * 2 ^ shift % 2 ^ 64 in
    let more = varint_loop rounds (shift + 7) value' rest in
    if ltb b 128 then (some value', rest) else more

unfoldable pub read_varint : List ℕ → Option ℕ × List ℕ
read_varint bytes = varint_loop 10 0 0 bytes

-- A number in groups of seven bits, lowest first; the top bit says that more follow. `k` more
-- groups at most.
unfoldable pub put_varint : ℕ → ℕ → List ℕ
put_varint zero v = v ∷ []
put_varint (suc k) v =
    let more = (v % 128 + 128) ∷ put_varint k (v / 128) in if ltb v 128 then v ∷ [] else more

pow_seven : (shift : ℕ) → 2 ^ (shift + 7) ≡ 128 * 2 ^ shift
pow_seven shift = simp towards_suc (omega arith)

-- One round, on a last byte and on one with the top bit set.
last_round :
    (k s acc b : ℕ) (rest : List ℕ)
    → b < 128
    → acc + b * 2 ^ s < 2 ^ 64
    → varint_loop (suc k) s acc (b ∷ rest) ≡ (some (acc + b * 2 ^ s), rest)
unfolding varint_loop
last_round k s acc b rest h fits = ground arith

inner_round :
    (k s acc g : ℕ) (rest : List ℕ)
    → g < 128
    → acc + g * 2 ^ s < 2 ^ 64
    → varint_loop (suc k) s acc ((g + 128) ∷ rest) ≡ varint_loop k (s + 7) (acc + g * 2 ^ s) rest
unfolding varint_loop
inner_round k s acc g rest h fits = ground arith

low_and_high : (v shift : ℕ) → v * 2 ^ shift ≡ v % 128 * 2 ^ shift + v / 128 * 2 ^ (shift + 7)
low_and_high v shift =
    let groups = ap (λ (w : ℕ). w * 2 ^ shift) (div-add-mod v 128) in
    omega (arith, groups, ap (λ (w : ℕ). v / 128 * w) (pow_seven shift))

varint_loop-put :
    (k v s acc : ℕ) (rest : List ℕ)
    → v < 128 ^ suc k
    → acc + v * 2 ^ s < 2 ^ 64
    → varint_loop (suc k) s acc (put_varint k v ++ rest) ≡ (some (acc + v * 2 ^ s), rest)
unfolding put_varint
varint_loop-put zero v s acc rest h fits = last_round 0 s acc v rest h fits
varint_loop-put (suc k) v s acc rest h fits = elim (dec_lt v 128) [
  | yes small ↦ rw (lt→ltb v 128 small) (last_round (suc k) s acc v rest small fits)
  | no large ↦ rw (le→ltb v 128 (omega arith)) (
      inner_round (suc k) s acc (v % 128) (put_varint k (v / 128) ++ rest) (omega arith)
        (omega (arith, low_and_high v s))
      ∙ varint_loop-put k (v / 128) (s + 7) (acc + v % 128 * 2 ^ s) rest
          (omega (arith, pow-suc 128 (suc k))) (omega (arith, low_and_high v s))
      ∙ ap (λ (t : ℕ). (some t, rest)) (omega (arith, low_and_high v s)))
]

-- A 64-bit number in its groups is read back, and the bytes behind it are left.
pub read_varint-put_varint :
    (v : ℕ) (rest : List ℕ) → v < 2 ^ 64 → read_varint (put_varint 9 v ++ rest) ≡ (some v, rest)
unfolding read_varint
read_varint-put_varint v rest h =
    varint_loop-put 9 v 0 0 rest (omega arith) (omega arith)
    ∙ ap (λ (t : ℕ). (some t, rest)) (omega arith)

group_product : (g p : ℕ) → g < 128 → g * p ≤ 127 * p
group_product g p h = grind arith

top_fits : (acc g : ℕ) → acc < 2 ^ 63 → acc + g * 2 ^ 63 % 2 ^ 64 < 2 ^ 64
top_fits acc g h = omega arith

-- What a round can add keeps the value below the next power.
value_grows : (acc g p : ℕ) → acc < p → g < 128 → acc + g * p % 2 ^ 64 < 128 * p
value_grows acc g p h hg = omega (arith, group_product g p hg)

value_fits :
    (s acc g : ℕ) → (s ≤ 57) ⊎ (s ≡ 63) → acc < 2 ^ s → g < 128 → acc + g * 2 ^ s % 2 ^ 64 < 2 ^ 64
value_fits s acc g (inl small) h hg =
    omega (arith, value_grows acc g (2 ^ s) h hg, pow-le-pow_right {n = 2} (omega arith) small)
value_fits s acc g (inr top) h hg = rw top (top_fits acc g (rw top at h))

shift_cases : (s k : ℕ) → s + 7 * suc k ≡ 70 → (s ≤ 57) ⊎ (s ≡ 63)
shift_cases s zero h = inr (omega arith)
shift_cases s (suc k) h = inl (omega arith)

-- `k` rounds are left at shift `s`; the value is below `2 ^ s`.
pub record IsRead (k : ℕ) (bytes : List ℕ) (res : Option ℕ × List ℕ) : Type 0 where
  pub in_range : (v : ℕ) → res.0 ≡ some v → v < 2 ^ 64
  pub shorter : (v : ℕ) → res.0 ≡ some v → length res.1 < length bytes
  pub few : length bytes ≤ length res.1 + k
  pub within : length res.1 ≤ length bytes
  pub failed : res.0 ≡ none → All (λ b. 128 ≤ b) (take k bytes)
  pub found : (v : ℕ) → res.0 ≡ some v → ¬ All (λ b. 128 ≤ b) (take k bytes)

IsRead-cons :
    (k b : ℕ) (rest : List ℕ) {res : Option ℕ × List ℕ}
    → 128 ≤ b
    → IsRead k rest res
    → IsRead (suc k) (b ∷ rest) res
IsRead-cons k b rest h r = record {
  in_range = r.in_range;
  shorter = λ v e. omega (arith, r.shorter v e);
  few = omega (arith, r.few);
  within = omega (arith, r.within);
  failed = λ e. (h, r.failed e);
  found = λ v e all. r.found v e all.1;
}

varint_last :
    (k s acc b : ℕ) (rest : List ℕ)
    → b < 128
    → varint_loop (suc k) s acc (b ∷ rest) ≡ (some (acc + b % 128 * 2 ^ s % 2 ^ 64), rest)
unfolding varint_loop
varint_last k s acc b rest h = ground arith

varint_more :
    (k s acc b : ℕ) (rest : List ℕ)
    → 128 ≤ b
    → varint_loop (suc k) s acc (b ∷ rest)
      ≡ varint_loop k (s + 7) (acc + b % 128 * 2 ^ s % 2 ^ 64) rest
unfolding varint_loop
varint_more k s acc b rest h = ground arith

varint_loop-IsRead :
    (k s acc : ℕ) (bytes : List ℕ)
    → s + 7 * k ≡ 70
    → acc < 2 ^ s
    → IsRead k bytes (varint_loop k s acc bytes)
varint_loop-IsRead zero s acc bytes hs ha =
    unfold varint_loop in
    record {
      in_range = λ v e. cc;
      shorter = λ v e. cc;
      few = omega arith;
      within = omega arith;
      failed = λ _. tt;
      found = λ v e. cc;
    }
varint_loop-IsRead (suc k) s acc [] hs ha =
    unfold varint_loop in
    record {
      in_range = λ v e. cc;
      shorter = λ v e. cc;
      few = omega arith;
      within = omega arith;
      failed = λ _. tt;
      found = λ v e. cc;
    }
varint_loop-IsRead (suc k) s acc (b ∷ rest) hs ha =
    let value : ℕ = acc + b % 128 * 2 ^ s % 2 ^ 64 in
    let small : value < 2 ^ 64 = value_fits s acc (b % 128) (shift_cases s k hs) ha (omega arith) in
    let grown : value < 2 ^ (s + 7) =
      omega (arith, value_grows acc (b % 128) (2 ^ s) ha (omega arith), pow_seven s) in
    elim (dec_lt b 128) [
      | yes last ↦ rw (varint_last k s acc b rest last) (record {
        in_range = λ v e. ground arith;
        shorter = λ v e. omega arith;
        few = omega arith;
        within = omega arith;
        failed = λ e. cc;
        found = λ v e all. omega arith;
      })
      | no more ↦ rw (varint_more k s acc b rest (omega arith)) (
          IsRead-cons k b rest (omega arith)
            (varint_loop-IsRead k (s + 7) value rest (omega arith) grown))
    ]

pub read_varint-IsRead : (bytes : List ℕ) → IsRead 10 bytes (read_varint bytes)
unfolding read_varint
read_varint-IsRead bytes = varint_loop-IsRead 10 0 0 bytes (omega arith) (omega arith)

-- A number that is read is below 2 ^ 64 and took 1 to 10 bytes, one of which ends it; otherwise
-- none of the first ten bytes, or of all if they are fewer, ends a number.
pub read_varint_cases :
    (bytes : List ℕ)
    → ((v : ℕ) × ((read_varint bytes).0 ≡ some v)
        × (v < 2 ^ 64)
        × (length (read_varint bytes).1 < length bytes)
        × (length bytes ≤ length (read_varint bytes).1 + 10)
        × (¬ All (λ b. 128 ≤ b) (take 10 bytes)))
      ⊎ (((read_varint bytes).0 ≡ none) × All (λ b. 128 ≤ b) (take 10 bytes))
read_varint_cases bytes =
    let r = read_varint-IsRead bytes in
    elim (Option-cases (read_varint bytes).0) [
      | inl e ↦ inr (e, r.failed e)
      | inr (v, e) ↦ inl (v, e, r.in_range v e, r.shorter v e, r.few, r.found v e)
    ]
