-- ===== src/QqHash.antt =====
-- rust-msg3-parser/src/qq_hash.rs: 16-byte hashes as 23 symbols of a 48-letter alphabet.
pub mod Division
pub mod Value
pub mod Symbols
pub mod Encode
pub mod RoundTrip
pub mod Hex
mod Examples
use qq_analyzer.Base.{
  ℕ, zero, suc, ◌+◌, ◌-◌, ◌*◌, ◌/◌, ◌%◌, ◌^◌, List, [], ◌∷◌, map, Option, none, some, Bool, true,
  false, not, any, ◌==◌, ltb, within, if◌then◌else◌, length, get_or, take, drop,
}
use qq_analyzer.Text.{Text, lit}

abbrev pub alphabet : Text
alphabet = lit "0123456789ABCDEFGHIJKLMNOPQRSTUVWXYZ~@$%`(){}[]_"

-- One inner loop of both functions: from the highest place down, `cur = rem * base + place`,
-- the place becomes `cur / by` and `rem` becomes `cur % by`. Places stand lowest first; `cur` is a
-- u32 and a place a u16.
unfoldable pub divide : ℕ → ℕ → List ℕ → List ℕ × ℕ
divide base by [] = ([], 0)
divide base by (d ∷ ds) =
    let higher = divide base by ds in
    let cur = (higher.1 * base + d) % 2 ^ 32 in ((cur / by % 2 ^ 16) ∷ higher.0, cur % by)

-- The outer loop: `n` remainders as bytes, lowest first, and the places that are left.
unfoldable pub divide_out : ℕ → ℕ → ℕ → List ℕ → List ℕ × List ℕ
divide_out zero base by ds = ([], ds)
divide_out (suc n) base by ds =
    let step = divide base by ds in
    let more = divide_out n base by step.0 in ((step.1 % 2 ^ 8) ∷ more.0, more.1)

-- `chunks_exact(2)` as 16-bit limbs.
abbrev pub limbs : List ℕ → List ℕ
limbs [] = []
limbs (a ∷ []) = []
limbs (a ∷ b ∷ rest) = (a + 256 * b) ∷ limbs rest

abbrev pub is_nonzero : ℕ → Bool
is_nonzero v = not (v == 0)

unfoldable pub encode_hash : List ℕ → Option Text
encode_hash bytes =
    let out = divide_out 23 65536 48 (limbs bytes) in
    if not (length bytes == 16)
    then none
    else if any is_nonzero out.1
    then none
    else some (map (λ idx. get_or alphabet idx 0) out.0)

abbrev pub to_ascii_upper : ℕ → ℕ
to_ascii_upper c = if within 97 122 c then c - 32 else c

-- `iter().position(|v| *v == upper)`
abbrev pub position_from : ℕ → ℕ → Text → Option ℕ
position_from i c [] = none
position_from i c (x ∷ xs) = if x == c then some i else position_from (suc i) c xs

unfoldable pub digit_of : ℕ → Option ℕ
digit_of c = position_from 0 (to_ascii_upper c) alphabet

abbrev pub cons_digit : Option ℕ → Option (List ℕ) → Option (List ℕ)
cons_digit none rest = none
cons_digit (some d) none = none
cons_digit (some d) (some ds) = some (d ∷ ds)

-- `None` when a character is outside the alphabet.
unfoldable pub digits_of : Text → Option (List ℕ)
digits_of [] = some []
digits_of (c ∷ cs) = cons_digit (digit_of c) (digits_of cs)

abbrev bytes_of_digits : Option (List ℕ) → Option (List ℕ)
bytes_of_digits none = none
bytes_of_digits (some ds) =
    let out = divide_out 16 48 256 ds in if any is_nonzero out.1 then none else some out.0

unfoldable pub decode_hash : Text → Option (List ℕ)
decode_hash text = if not (length text == 23) then none else bytes_of_digits (digits_of text)
