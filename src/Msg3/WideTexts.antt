-- ===== src/Msg3/WideTexts.antt =====
-- `decoded_byte_texts`, `td_xor_wide_texts` and `td_low_byte_candidate` of msg3_parser.rs.
use qq_analyzer.Base.{
  ℕ, zero, suc, ◌-◌, ◌*◌, List, [], ◌∷◌, ◌++◌, Option, none, some, Bool, true, false, not, ◌&&◌,
  ◌||◌, ltb, leb, within, ◌==◌, if◌then◌else◌, length, bit_xor,
}
use qq_analyzer.Text.{Text, member}
use qq_analyzer.TxData.Strings.{is_odd_control}
use qq_analyzer.Msg3.Texts.{
  valid_utf8_text, reasonable_text, is_generic_token, plausible_ascii, ascii_text,
}

abbrev option_list : Option Text → List Text
option_list none = []
option_list (some t) = t ∷ []

abbrev no_texts : List Text → Bool
no_texts [] = true
no_texts (t ∷ ts) = false

abbrev push_if : Bool → Text → List Text → List Text
push_if test text out = if test then out ++ (text ∷ []) else out

abbrev push_new : List Text → List Text → List Text
push_new out [] = out
push_new out (t ∷ ts) = push_new (push_if (not (member t out)) t out) ts

module _ (gb18030 : List ℕ → Text × Bool) where
  abbrev add_gb18030 : Text × Bool → List Text → List Text
  add_gb18030 (text, had_errors) out =
      push_if
        (not had_errors
          && (reasonable_text text && not (is_generic_token text) && not (member text out)))
        text out

  abbrev add_ascii : List ℕ → List Text → List Text
  add_ascii bytes out =
      let text = ascii_text bytes in
      push_if (no_texts out && plausible_ascii bytes && reasonable_text text) text out

  unfoldable pub decoded_byte_texts : List ℕ → List Text
  decoded_byte_texts bytes =
      add_ascii bytes (add_gb18030 (gb18030 bytes) (option_list (valid_utf8_text bytes)))

  abbrev pub td_xor_high_byte : ℕ → Bool
  td_xor_high_byte hi = within 0x50 0x7f hi || leb 0x80 hi

  -- The bytes decoded from a run of pairs with the same high byte.
  abbrev pub xor_run : ℕ → List ℕ → List ℕ
  xor_run hi [] = []
  xor_run hi (lo ∷ []) = []
  xor_run hi (lo ∷ h ∷ rest) =
      let more = xor_run hi rest in
      let c = bit_xor lo hi in if not (h == hi) || c == 0 || is_odd_control c then [] else c ∷ more

  -- One round: the bytes to pass over behind the first one, and the texts.
  abbrev pub wide_round : List ℕ → List Text → ℕ × List Text
  wide_round decoded out =
      let texts = push_new out (decoded_byte_texts decoded) in
      let text = ascii_text decoded in
      let to_end = 2 * length decoded - 1 in
      if ltb (length decoded) 4
      then (0, out)
      else if ltb (length out) (length texts)
      then (to_end, texts)
      else if plausible_ascii decoded
          && (reasonable_text text && not (is_generic_token text) && not (member text out))
      then (to_end, out ++ (text ∷ []))
      else (0, out)

  unfoldable pub wide_loop : ℕ → List ℕ → List Text → List Text
  wide_loop skip [] out = out
  wide_loop (suc skip) (b ∷ rest) out = wide_loop skip rest out
  wide_loop zero (lo ∷ []) out = out
  wide_loop zero (lo ∷ hi ∷ rest) out =
      let round =
        if td_xor_high_byte hi then wide_round (xor_run hi (lo ∷ hi ∷ rest)) out else (0, out) in
      let more = wide_loop round.0 (hi ∷ rest) round.1 in if ltb (length out) 128 then more else out

  unfoldable pub td_xor_wide_texts : List ℕ → List Text
  td_xor_wide_texts bytes = wide_loop 0 bytes []

abbrev is_low_mark : ℕ → Bool
is_low_mark hi =
    within 0x60 0x70 hi
    || hi == 0xcf
    || hi == 0xdd
    || hi == 0xdf
    || hi == 0xe3
    || hi == 0xe5
    || hi == 0xe9
    || hi == 0xeb
    || hi == 0xef

unfoldable pub td_low_byte_candidate : List ℕ → List ℕ
td_low_byte_candidate [] = []
td_low_byte_candidate (lo ∷ []) = []
td_low_byte_candidate (lo ∷ hi ∷ rest) =
    let more = td_low_byte_candidate rest in if is_low_mark hi then lo ∷ more else more
