-- ===== src/Credentials/Normal.antt =====
-- `normalized` and `validate` of credentials.rs together.
use qq_analyzer.Base.{
  ℕ, ◌*◌, ◌/◌, ◌%◌, ◌≤◌, [], ◌∷◌, true, false, ◌==◌, if◌then◌else◌, all, length, All, All-append,
  Bool-cases, ◌≡◌, inl, inr, refl, ap, ◌∙◌, arith,
}
use qq_analyzer.Text.{Text, is_empty, trim, utf8_len, utf8_width, is_ascii_hexdigit}
use qq_analyzer.Credentials.{
  CredentialRecord, valid, is_hex_filler, validate, clean_hex, normalized,
}

-- A record whose key is usable: hex digits, two for each byte of the key.
pub record IsKey (r : CredentialRecord) : Type 0 where
  pub digits : all is_ascii_hexdigit r.key_hex ≡ true
  pub sized : length r.key_hex ≡ r.key_len * 2
  pub some_key : 1 ≤ r.key_len
  pub owned : is_empty (trim r.account) ≡ false

hex-utf8_width : (c : ℕ) → is_ascii_hexdigit c ≡ true → utf8_width c ≡ 1
hex-utf8_width c h = ground arith

hex-utf8_len : (t : Text) → all is_ascii_hexdigit t ≡ true → utf8_len t ≡ length t
hex-utf8_len [] h = refl
hex-utf8_len (c ∷ cs) h =
    omega (arith, hex-utf8_width c (ground arith), hex-utf8_len cs (ground arith))

nonempty-length : (t : Text) → is_empty t ≡ false → 1 ≤ length t
nonempty-length [] h = absurd (ground arith)
nonempty-length (c ∷ cs) h = omega arith

validate_tests :
    (r : CredentialRecord)
    → validate r ≡ valid
    → (is_empty (trim r.account) ≡ false)
      × (is_empty r.key_hex ≡ false)
      × ((utf8_len r.key_hex % 2 == 0) ≡ true)
      × (all is_ascii_hexdigit r.key_hex ≡ true)
      × ((r.key_len == utf8_len r.key_hex / 2) ≡ true)
unfolding validate
validate_tests r h = ground arith

-- A record that passes has a usable key.
pub validate-IsKey : (r : CredentialRecord) → validate r ≡ valid → IsKey r
validate-IsKey r h =
    let (owned, given, even, digits, sized) = validate_tests r h in
    let len = hex-utf8_len r.key_hex digits in
    let twice : length r.key_hex ≡ r.key_len * 2 = ground (arith, len, even, sized) in
    record {
      digits = digits;
      sized = twice;
      some_key = omega (arith, twice, nonempty-length r.key_hex given);
      owned = owned;
    }

abbrev with_parts : CredentialRecord → Text → ℕ → Text → CredentialRecord
with_parts r key_hex key_len captured_at = record r {
  key_hex = key_hex;
  key_len = key_len;
  captured_at = captured_at;
}

same_parts :
    (r : CredentialRecord) {k k' : Text} {n n' : ℕ} {c c' : Text}
    → k ≡ k'
    → n ≡ n'
    → c ≡ c'
    → with_parts r k n c ≡ with_parts r k' n' c'
same_parts r {k} {k'} {n} {n'} {c} {c'} ek en ec =
    ap (λ t. with_parts r t n c) ek
    ∙ ap (λ t. with_parts r k' t c) en
    ∙ ap (λ t. with_parts r k' n' t) ec

hex_no_filler : (c : ℕ) → is_ascii_hexdigit c ≡ true → is_hex_filler c ≡ false
hex_no_filler c h = ground arith

module _ (to_lowercase : ℕ → Text)
    (lower_again : (c : ℕ) → All (λ d. to_lowercase d ≡ d ∷ []) (to_lowercase c)) (now : Text)
    (some_time : is_empty now ≡ false) where
  clean_hex-lower : (t : Text) → All (λ d. to_lowercase d ≡ d ∷ []) (clean_hex to_lowercase t)
  unfolding clean_hex
  clean_hex-lower [] = tt
  clean_hex-lower (c ∷ cs) = elim (Bool-cases (is_hex_filler c)) [
    | inl filler ↦ rw (filler, clean_hex) (clean_hex-lower cs)
    | inr kept ↦
        rw (kept, clean_hex)
          (All-append _ (to_lowercase c) (clean_hex to_lowercase cs) (lower_again c)
            (clean_hex-lower cs))
  ]

  clean_hex-fixed :
      (t : Text)
      → all is_ascii_hexdigit t ≡ true
      → All (λ d. to_lowercase d ≡ d ∷ []) t
      → clean_hex to_lowercase t ≡ t
  unfolding clean_hex
  clean_hex-fixed [] h low = refl
  clean_hex-fixed (c ∷ cs) h low =
      let digit : is_ascii_hexdigit c ≡ true = ground arith in
      rw (hex_no_filler c digit, low.0, clean_hex)
        (ap (λ t. c ∷ t) (clean_hex-fixed cs (ground arith) low.1))

  time_given : (t : Text) → is_empty (if is_empty t then now else t) ≡ false
  time_given [] = some_time
  time_given (c ∷ cs) = refl

  -- Normalising a record twice is normalising it once, if it passes the checks.
  pub normalized-normalized :
      (r : CredentialRecord)
      → validate (normalized to_lowercase now r) ≡ valid
      → normalized to_lowercase now (normalized to_lowercase now r) ≡ normalized to_lowercase now r
  unfolding normalized
  normalized-normalized r h =
      let key = validate-IsKey (normalized to_lowercase now r) h in
      let sized : ((normalized to_lowercase now r).key_len == 0) ≡ false =
        ground (arith, key.some_key) in
      let fixed =
        clean_hex-fixed (normalized to_lowercase now r).key_hex key.digits
          (clean_hex-lower r.key_hex) in
      same_parts r fixed (rw sized refl) (rw (time_given r.captured_at) refl)
