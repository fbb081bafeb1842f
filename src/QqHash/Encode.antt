-- ===== src/QqHash/Encode.antt =====
-- What `encode_hash` computes.
use qq_analyzer.Base.{
  ℕ, zero, suc, ◌+◌, ◌-◌, ◌*◌, ◌^◌, ◌<◌, List, [], ◌∷◌, map, some, false, any, length, IsBytes, ◌≡◌,
  refl, ap, ◌∙◌, arith,
}
use qq_analyzer.QqHash.{divide_out, limbs, is_nonzero, encode_hash}
use qq_analyzer.QqHash.Division.{value, ArePlaces}
use qq_analyzer.QqHash.Value.{value-lt, zero_value, divide_out-IsDividedOut}
use qq_analyzer.QqHash.Symbols.{symbol}

-- The limbs of bytes stand for the number of the bytes.
pub value-limbs :
    (bytes : List ℕ) (k : ℕ) → length bytes ≡ 2 * k → value 65536 (limbs bytes) ≡ value 256 bytes
value-limbs [] k l = refl
value-limbs (a ∷ []) k l = absurd (omega arith)
value-limbs (a ∷ b ∷ rest) k l = omega (arith, value-limbs rest (k - 1) (omega arith))

pub limbs-ArePlaces : (bytes : List ℕ) → IsBytes bytes → ArePlaces 65536 (limbs bytes)
limbs-ArePlaces [] h = tt
limbs-ArePlaces (a ∷ []) h = tt
limbs-ArePlaces (a ∷ b ∷ rest) h = (omega (arith, h.0, h.1.0), limbs-ArePlaces rest h.1.1)

-- The 23 places that `encode_hash` computes.
unfoldable pub hash_digits : List ℕ → List ℕ
hash_digits bytes = (divide_out 23 65536 48 (limbs bytes)).0

pub record IsEncoded (bytes : List ℕ) : Type 0 where
  pub result : encode_hash bytes ≡ some (map symbol (hash_digits bytes))
  pub digits : ArePlaces 48 (hash_digits bytes)
  pub counted : length (hash_digits bytes) ≡ 23
  pub keeps : value 48 (hash_digits bytes) ≡ value 256 bytes

-- A multiple of `m` below `m` is zero.
pub small_multiple : (m u v r : ℕ) → r + m * u ≡ v → v < m → u ≡ 0
small_multiple m zero v r e h = refl
small_multiple m (suc u) v r e h = absurd (omega arith)

pub encode_result :
    (bytes : List ℕ)
    → length bytes ≡ 16
    → any is_nonzero (divide_out 23 65536 48 (limbs bytes)).1 ≡ false
    → encode_hash bytes ≡ some (map symbol (hash_digits bytes))
unfolding encode_hash hash_digits symbol
encode_result bytes l e = ground arith

pub encode-IsEncoded : (bytes : List ℕ) → IsBytes bytes → length bytes ≡ 16 → IsEncoded bytes
unfolding hash_digits
encode-IsEncoded bytes h l =
    let out =
      divide_out-IsDividedOut 65536 48 (omega arith) (omega arith) (omega arith) 23 (limbs bytes)
        (limbs-ArePlaces bytes h) in
    let total = value-limbs bytes 8 (omega arith) in
    let bound : value 256 bytes < 256 ^ 16 = rw l at (value-lt 256 bytes h) in
    let left : value 65536 (divide_out 23 65536 48 (limbs bytes)).1 ≡ 0 =
      small_multiple (48 ^ 23) _ (value 256 bytes) (value 48 (hash_digits bytes))
        (out.keeps ∙ total) (omega arith) in
    record {
      result = encode_result bytes l (zero_value 65536 _ (omega arith) left);
      digits = out.digits;
      counted = out.counted;
      keeps = omega (arith, out.keeps, total, left, ap (λ (t : ℕ). 48 ^ 23 * t) left);
    }
