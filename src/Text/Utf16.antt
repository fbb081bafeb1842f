-- ===== src/Text/Utf16.antt =====
-- `String::from_utf16`, `String::from_utf16_lossy` and `encode_utf16`.
use qq_analyzer.Base.{
  ℕ, ◌+◌, ◌-◌, ◌*◌, ◌/◌, ◌%◌, ◌<◌, ◌≤◌, List, [], ◌∷◌, Option, none, some, Bool, true, ltb, within,
  if◌then◌else◌, All, ◌≡◌, ◌⊎◌, refl, arith,
}
use native.Mathlib.Decide.{dec_lt}

abbrev pub is_high : ℕ → Bool
is_high u = within 0xd800 0xdbff u

abbrev pub is_low : ℕ → Bool
is_low u = within 0xdc00 0xdfff u

abbrev pair_value : ℕ → ℕ → ℕ
pair_value hi lo = 0x10000 + (hi - 0xd800) * 1024 + (lo - 0xdc00)

abbrev prepend : ℕ → Option (List ℕ) → Option (List ℕ)
prepend c none = none
prepend c (some t) = some (c ∷ t)

-- An unpaired surrogate is an error.
unfoldable pub from_utf16 : List ℕ → Option (List ℕ)
from_utf16 [] = some []
from_utf16 (u ∷ []) = if within 0xd800 0xdfff u then none else some (u ∷ [])
from_utf16 (u ∷ v ∷ rest) =
    let paired = prepend (pair_value u v) (from_utf16 rest) in
    let single = prepend u (from_utf16 (v ∷ rest)) in
    if is_high u then (if is_low v then paired else none) else if is_low u then none else single

-- The lossy form puts U+FFFD for each unpaired surrogate.
unfoldable pub from_utf16_lossy : List ℕ → List ℕ
from_utf16_lossy [] = []
from_utf16_lossy (u ∷ []) = if within 0xd800 0xdfff u then 0xfffd ∷ [] else u ∷ []
from_utf16_lossy (u ∷ v ∷ rest) =
    let paired = pair_value u v ∷ from_utf16_lossy rest in
    let single = u ∷ from_utf16_lossy (v ∷ rest) in
    let lost = 0xfffd ∷ from_utf16_lossy (v ∷ rest) in
    if is_high u then (if is_low v then paired else lost) else if is_low u then lost else single

unfoldable pub encode_utf16 : List ℕ → List ℕ
encode_utf16 [] = []
encode_utf16 (c ∷ cs) =
    let wide =
      (0xd800 + (c - 0x10000) / 1024) ∷ (0xdc00 + (c - 0x10000) % 1024) ∷ encode_utf16 cs in
    let narrow = c ∷ encode_utf16 cs in if ltb c 0x10000 then narrow else wide

-- A Unicode scalar value: no surrogate, at most U+10FFFF.
abbrev pub IsScalar : ℕ → Type 0
IsScalar c = (c < 0x110000) × ((c < 0xd800) ⊎ (0xe000 ≤ c))

encode_wide :
    (c : ℕ) (cs : List ℕ)
    → (c < 0x10000 → ⊥)
    → encode_utf16 (c ∷ cs)
      ≡ (0xd800 + (c - 0x10000) / 1024) ∷ (0xdc00 + (c - 0x10000) % 1024) ∷ encode_utf16 cs
unfolding encode_utf16
encode_wide c cs h = ground arith

encode_narrow : (c : ℕ) (cs : List ℕ) → c < 0x10000 → encode_utf16 (c ∷ cs) ≡ c ∷ encode_utf16 cs
unfolding encode_utf16
encode_narrow c cs h = ground arith

decode_narrow :
    (c : ℕ) (rest : List ℕ)
    → (c < 0xd800) ⊎ (0xe000 ≤ c)
    → from_utf16 (c ∷ rest) ≡ prepend c (from_utf16 rest)
unfolding from_utf16
decode_narrow c [] h = ground arith
decode_narrow c (v ∷ rest) h = ground arith

decode_wide :
    (u v : ℕ) (rest : List ℕ)
    → is_high u ≡ true
    → is_low v ≡ true
    → from_utf16 (u ∷ v ∷ rest) ≡ prepend (pair_value u v) (from_utf16 rest)
unfolding from_utf16
decode_wide u v rest hu hv = ground arith

pair_of :
    (c : ℕ)
    → c < 0x110000
    → (c < 0x10000 → ⊥)
    → pair_value (0xd800 + (c - 0x10000) / 1024) (0xdc00 + (c - 0x10000) % 1024) ≡ c
pair_of c h wide = omega arith

-- Decoding the UTF-16 form of a text of scalar values gives the text back.
pub from_utf16-encode_utf16 : (t : List ℕ) → All IsScalar t → from_utf16 (encode_utf16 t) ≡ some t
from_utf16-encode_utf16 [] h = unfold from_utf16 encode_utf16 in refl
from_utf16-encode_utf16 (c ∷ cs) h = elim (dec_lt c 0x10000) [
  | yes narrow ↦ cc (
    encode_narrow c cs narrow,
    decode_narrow c (encode_utf16 cs) h.0.1,
    from_utf16-encode_utf16 cs h.1,
  )
  | no wide ↦ cc (
    encode_wide c cs wide,
    decode_wide (0xd800 + (c - 0x10000) / 1024) (0xdc00 + (c - 0x10000) % 1024) (encode_utf16 cs)
        (ground arith) (ground arith),
    pair_of c h.0.0 wide,
    from_utf16-encode_utf16 cs h.1,
  )
]
