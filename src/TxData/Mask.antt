-- ===== src/TxData/Mask.antt =====
-- The length-keyed byte mask of TXData strings.
use qq_analyzer.Base.{
  ℕ, ◌-◌, ◌/◌, ◌%◌, ◌≤◌, ◌<◌, List, [], ◌∷◌, map, ltb, if◌then◌else◌, length, length-map, IsBytes,
  bit_xor, not_xor_twice, not_xor-IsByte, bit_xor-IsByte, ◌≡◌, refl, ◌∙◌, ap₂, arith,
}

-- `(len as u8) ^ ((len >> 8) as u8)` for a length that fits 16 bits.
unfoldable pub length_key : ℕ → ℕ
length_key len = bit_xor (len % 256) (len / 256 % 256)

unfoldable pub mask : ℕ → List ℕ → List ℕ
mask key = map (λ b. bit_xor (255 - b) key)

-- Empty for an empty input and for one longer than 0xffff.
unfoldable pub decode_txdata_obfuscated_bytes : List ℕ → List ℕ
decode_txdata_obfuscated_bytes [] = []
decode_txdata_obfuscated_bytes (b ∷ bs) =
    if ltb 0xffff (length (b ∷ bs)) then [] else mask (length_key (length (b ∷ bs))) (b ∷ bs)

-- The encoder that the tests of the source use for names and values.
unfoldable pub encode_txdata_string : List ℕ → List ℕ
encode_txdata_string plain = mask (length_key (length plain % 65536)) plain

pub length_key-lt : (len : ℕ) → length_key len < 256
unfolding length_key
length_key-lt len = bit_xor-IsByte (len % 256) (len / 256 % 256) (omega arith) (omega arith)

pub length-mask : (key : ℕ) (bs : List ℕ) → length (mask key bs) ≡ length bs
unfolding mask
length-mask key bs = length-map _ bs

pub mask-mask : (key : ℕ) (bs : List ℕ) → key < 256 → IsBytes bs → mask key (mask key bs) ≡ bs
unfolding mask
mask-mask key [] hk h = refl
mask-mask key (b ∷ bs) hk h = ap₂ ◌∷◌ (not_xor_twice b key h.0 hk) (mask-mask key bs hk h.1)

pub mask-IsBytes : (key : ℕ) (bs : List ℕ) → key < 256 → IsBytes (mask key bs)
unfolding mask
mask-IsBytes key [] hk = tt
mask-IsBytes key (b ∷ bs) hk = (not_xor-IsByte b key hk, mask-IsBytes key bs hk)

-- Within its length limit the decoder masks by the key of the length.
pub decode-eq-mask :
    (bs : List ℕ)
    → length bs ≤ 0xffff
    → decode_txdata_obfuscated_bytes bs ≡ mask (length_key (length bs)) bs
unfolding decode_txdata_obfuscated_bytes
decode-eq-mask [] h = unfold mask in refl
decode-eq-mask (b ∷ bs) h = ground arith

-- Masking is its own inverse on byte strings of at most 0xffff bytes.
pub decode-decode :
    (bs : List ℕ)
    → length bs ≤ 0xffff
    → IsBytes bs
    → decode_txdata_obfuscated_bytes (decode_txdata_obfuscated_bytes bs) ≡ bs
decode-decode bs h bytes = rw (decode-eq-mask bs h) (
    decode-eq-mask (mask (length_key (length bs)) bs) (rw length-mask h)
    ∙ rw (length-mask (length_key (length bs)) bs)
        (mask-mask (length_key (length bs)) bs (length_key-lt (length bs)) bytes))

-- Within the limit the encoder and the decoder are one function.
pub encode-eq-decode :
    (bs : List ℕ) → length bs ≤ 0xffff → encode_txdata_string bs ≡ decode_txdata_obfuscated_bytes bs
unfolding encode_txdata_string
encode-eq-decode bs h =
    let small : length bs % 65536 ≡ length bs = omega arith in rw (small, decode-eq-mask bs h)

-- A string that was encoded decodes to itself.
pub decode-encode :
    (bs : List ℕ)
    → length bs ≤ 0xffff
    → IsBytes bs
    → decode_txdata_obfuscated_bytes (encode_txdata_string bs) ≡ bs
decode-encode bs h bytes = rw (encode-eq-decode bs h) (decode-decode bs h bytes)
