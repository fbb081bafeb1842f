-- ===== src/Base/Words.antt =====
-- Bytes and little-endian words. A byte is a number below 256; `!b` on a byte is `255 - b`.
use Prim.Native.Nat.{ℕ, zero, suc, ◌+◌, ◌-◌, ◌*◌, ◌/◌, ◌%◌, ◌<◌, bit_xor}
use mathlib.Core.Path.{◌≡◌, refl}
use mathlib.Core.Bool.{Bool, true, false}
use mathlib.Core.List.{List, ◌∷◌}
use native.Mathlib.Omega.{arith}
use qq_analyzer.Base.Tests.{if◌then◌else◌, ◌==◌, ltb, ltb→lt, ==_iff}
use qq_analyzer.Base.Lists.{get_or, All}

abbrev pub IsByte : ℕ → Type 0
IsByte b = b < 256

abbrev pub IsBytes : List ℕ → Type 0
IsBytes = All IsByte

abbrev pub byte_at : List ℕ → ℕ → ℕ
byte_at bytes i = get_or bytes i 0

-- `data[0] | data[1] << 8`; the two bytes do not overlap, so `|` is a sum.
abbrev pub le16 : List ℕ → ℕ
le16 bytes = byte_at bytes 0 + 256 * byte_at bytes 1

abbrev pub be16 : List ℕ → ℕ
be16 bytes = 256 * byte_at bytes 0 + byte_at bytes 1

-- `u32::from_le_bytes` of the first four bytes.
abbrev pub le32 : List ℕ → ℕ
le32 bytes =
    byte_at bytes 0 + 256 * byte_at bytes 1 + 65536 * byte_at bytes 2 + 16777216 * byte_at bytes 3

-- `u16::to_le_bytes` and `u32::to_le_bytes`.
abbrev pub put16 : ℕ → List ℕ → List ℕ
put16 n rest = n % 256 ∷ n / 256 % 256 ∷ rest

abbrev pub put32 : ℕ → List ℕ → List ℕ
put32 n rest = n % 256 ∷ n / 256 % 256 ∷ n / 65536 % 256 ∷ n / 16777216 % 256 ∷ rest

pub le16-put16 : (n : ℕ) (rest : List ℕ) → n < 65536 → le16 (put16 n rest) ≡ n
le16-put16 n rest h = omega arith

pub le32-put32 : (n : ℕ) (rest : List ℕ) → n < 4294967296 → le32 (put32 n rest) ≡ n
le32-put32 n rest h = omega arith

-- Over a small range, every value is checked by evaluation.
unfoldable pub table : (ℕ → Bool) → ℕ → Bool
table p zero = true
table p (suc last) = if p last then table p last else false

-- A table that is true throughout is true at each place.
pub table_entry : (p : ℕ → Bool) (size i : ℕ) → i < size → table p size ≡ true → p i ≡ true
unfolding table
table_entry p zero i inside whole = absurd (omega arith)
table_entry p (suc last) i inside whole = ground (arith, table_entry p last i)

abbrev not_xor : ℕ → ℕ → ℕ
not_xor b key = bit_xor (255 - b) key

not_xor-table : table (λ b. table (λ key. not_xor (not_xor b key) key == b) 256) 256 ≡ true
unfolding table
not_xor-table = refl

-- Complementing and masking a byte by a key byte, twice, is the identity.
pub not_xor_twice : (b key : ℕ) → b < 256 → key < 256 → not_xor (not_xor b key) key ≡ b
not_xor_twice b key hb hk =
    (==_iff _ b).0 (table_entry _ 256 key hk (table_entry _ 256 b hb not_xor-table))

bytes_of_xor : table (λ a. table (λ b. ltb (bit_xor a b) 256) 256) 256 ≡ true
unfolding table
bytes_of_xor = refl

pub bit_xor-IsByte : (a b : ℕ) → a < 256 → b < 256 → bit_xor a b < 256
bit_xor-IsByte a b ha hb = ltb→lt _ _ (table_entry _ 256 b hb (table_entry _ 256 a ha bytes_of_xor))

-- The same mask written as the source writes it: the complement of `b`, then the key.
pub not_xor-IsByte : (b key : ℕ) → key < 256 → bit_xor (255 - b) key < 256
not_xor-IsByte b key hk = bit_xor-IsByte (255 - b) key (omega arith) hk
