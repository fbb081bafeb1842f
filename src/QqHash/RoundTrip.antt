-- ===== src/QqHash/RoundTrip.antt =====
-- `encode_hash` and `decode_hash` of qq_hash.rs together.
use qq_analyzer.Base.{
  ℕ, ◌+◌, ◌*◌, ◌^◌, ◌<◌, List, [], ◌∷◌, map, none, some, false, any, if◌then◌else◌, subst, length,
  length-map, IsBytes, ◌≡◌, refl, sym, ap, ap₂, ◌∙◌, arith, Option-cases, inl, inr,
}
use qq_analyzer.Text.{Text, to_ascii_lowercase, to_ascii_lower}
use qq_analyzer.QqHash.{
  divide_out, alphabet, is_nonzero, to_ascii_upper, digit_of, digits_of, cons_digit, position_from,
  encode_hash, decode_hash,
}
use qq_analyzer.QqHash.Division.{value, ArePlaces}
use qq_analyzer.QqHash.Value.{value-lt, value_injective, zero_value, divide_out-IsDividedOut}
use qq_analyzer.QqHash.Symbols.{symbol, digits_of-symbols, digits_lem}
use qq_analyzer.QqHash.Encode.{hash_digits, encode-IsEncoded, small_multiple}

nonzero_value : (base : ℕ) (ds : List ℕ) → any is_nonzero ds ≡ false → value base ds ≡ 0
nonzero_value base [] e = refl
nonzero_value base (d ∷ ds) e = ground (arith, nonzero_value base ds)

-- What `decode_hash` computes from 23 places.
hash_bytes : List ℕ → List ℕ
hash_bytes ds = (divide_out 16 48 256 ds).0

record IsDecoded (ds : List ℕ) : Type 0 where
  bytes : IsBytes (hash_bytes ds)
  counted : length (hash_bytes ds) ≡ 16
  keeps : value 256 (hash_bytes ds) + 256 ^ 16 * value 48 (divide_out 16 48 256 ds).1 ≡ value 48 ds

decode-IsDecoded : (ds : List ℕ) → ArePlaces 48 ds → IsDecoded ds
unfolding hash_bytes
decode-IsDecoded ds h =
    let out = divide_out-IsDividedOut 48 256 (omega arith) (omega arith) (omega arith) 16 ds h in
    record { bytes = out.digits; counted = out.counted; keeps = out.keeps }

decode_result :
    (text : Text) (ds : List ℕ)
    → length text ≡ 23
    → digits_of text ≡ some ds
    → decode_hash text
      ≡ (if any is_nonzero (divide_out 16 48 256 ds).1 then none else some (hash_bytes ds))
decode_result text ds l e = unfold hash_bytes decode_hash in simp (l, e)

decode_fits :
    (text : Text) (ds : List ℕ)
    → length text ≡ 23
    → digits_of text ≡ some ds
    → value 48 ds < 256 ^ 16
    → (decode_hash text ≡ some (hash_bytes ds)) × (value 256 (hash_bytes ds) ≡ value 48 ds)
decode_fits text ds l e h =
    let places = (digits_lem text ds e).places in
    let done = decode-IsDecoded ds places in
    let left : value 48 (divide_out 16 48 256 ds).1 ≡ 0 =
      small_multiple (256 ^ 16) _ (value 48 ds) (value 256 (hash_bytes ds)) done.keeps h in
    (
      decode_result text ds l e ∙ rw (zero_value 48 (divide_out 16 48 256 ds).1 (omega arith) left),
      omega (arith, done.keeps, left, ap (λ (t : ℕ). 256 ^ 16 * t) left),
    )

-- Every 16-byte hash encodes to 23 symbols, and decoding them gives the hash back.
pub decode-encode_hash :
    (bytes : List ℕ)
    → IsBytes bytes
    → length bytes ≡ 16
    → (text : Text) × (encode_hash bytes ≡ some text)
      × (length text ≡ 23)
      × (decode_hash text ≡ some bytes)
decode-encode_hash bytes h l =
    let enc = encode-IsEncoded bytes h l in
    let ds : List ℕ = hash_digits bytes in
    let counted : length (map symbol ds) ≡ 23 = length-map symbol ds ∙ enc.counted in
    let bound : value 256 bytes < 256 ^ 16 = rw l at (value-lt 256 bytes h) in
    let (decoded, same) =
      decode_fits (map symbol ds) ds counted (digits_of-symbols ds enc.digits)
        (omega (arith, enc.keeps)) in
    let done = decode-IsDecoded ds enc.digits in
    (
      map symbol ds,
      enc.result,
      counted,
      decoded
          ∙ ap some (
              value_injective 256 (hash_bytes ds) bytes done.bytes h (done.counted ∙ sym l)
                (same ∙ enc.keeps)),
    )

decode_parts :
    (text : Text) (bytes : List ℕ)
    → decode_hash text ≡ some bytes
    → (ds : List ℕ) × (length text ≡ 23)
      × (digits_of text ≡ some ds)
      × (value 48 (divide_out 16 48 256 ds).1 ≡ 0)
      × (hash_bytes ds ≡ bytes)
decode_parts text bytes e = elim (Option-cases (digits_of text)) [
  | inl bad ↦ unfold decode_hash in ground arith
  | inr (ds, eds) ↦
      let l : length text ≡ 23 = unfold decode_hash in ground arith in
      let left : any is_nonzero (divide_out 16 48 256 ds).1 ≡ false =
        ground (arith, decode_result text ds l eds) in
      (ds, l, eds, nonzero_value 48 _ left, ground (arith, decode_result text ds l eds))
]

-- A text that decodes is, in upper case, the encoding of its bytes.
pub encode-decode_hash :
    (text : Text) (bytes : List ℕ)
    → decode_hash text ≡ some bytes
    → (length bytes ≡ 16) × IsBytes bytes × (encode_hash bytes ≡ some (map to_ascii_upper text))
encode-decode_hash text bytes e =
    let (ds, l, eds, left, result) = decode_parts text bytes e in
    let digits = digits_lem text ds eds in
    let done = decode-IsDecoded ds digits.places in
    let keeps : value 256 (hash_bytes ds) ≡ value 48 ds =
      omega (arith, done.keeps, left, ap (λ (t : ℕ). 256 ^ 16 * t) left) in
    let enc = encode-IsEncoded (hash_bytes ds) done.bytes done.counted in
    let same =
      value_injective 48 (hash_digits (hash_bytes ds)) ds enc.digits digits.places
        (enc.counted ∙ sym (digits.same_length ∙ l)) (enc.keeps ∙ keeps) in
    (
      rw (← result) done.counted,
      subst IsBytes result done.bytes,
      ap encode_hash (sym result)
          ∙ enc.result
          ∙ ap (λ t. some (map symbol t)) same
          ∙ ap some digits.symbols,
    )

digit_of-lower : (c : ℕ) → digit_of (to_ascii_lower c) ≡ digit_of c
unfolding digit_of
digit_of-lower c =
    let e : to_ascii_upper (to_ascii_lower c) ≡ to_ascii_upper c = ground arith in
    ap (λ x. position_from 0 x alphabet) e

digits_of-lowercase : (text : Text) → digits_of (to_ascii_lowercase text) ≡ digits_of text
unfolding digits_of
digits_of-lowercase [] = refl
digits_of-lowercase (c ∷ cs) = ap₂ cons_digit (digit_of-lower c) (digits_of-lowercase cs)

-- Decoding does not look at the case of ASCII letters.
pub decode_hash-lowercase : (text : Text) → decode_hash (to_ascii_lowercase text) ≡ decode_hash text
decode_hash-lowercase text =
    unfold decode_hash in rw (length-map to_ascii_lower text, digits_of-lowercase text)
