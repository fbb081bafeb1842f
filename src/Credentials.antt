-- ===== src/Credentials.antt =====
-- rust-msg3-parser/src/credentials.rs: the records of captured keys. This file has a record and its
-- checks; Store has the file of records, Lookup the choice of a key for a database.
pub mod Store
pub mod Lines
pub mod Lookup
pub mod Normal
pub mod Append
pub mod Choice
mod Examples
use qq_analyzer.Base.{
  ℕ, ◌*◌, ◌/◌, ◌%◌, List, [], ◌∷◌, ◌++◌, Bool, true, false, not, ◌||◌, ◌==◌, if◌then◌else◌, all,
}
use qq_analyzer.Text.{Text, is_empty, trim, utf8_len, is_ascii_hexdigit}

pub data CredentialKind : Type 0 where
  pcqq_sqlite_key infostorage_tea_key ntqq_sqlcipher_key other : CredentialKind

pub record CredentialRecord : Type 0 where
  pub kind : CredentialKind
  pub account : Text
  pub source : Text
  pub db_path : Text
  pub key_hex : Text
  pub key_len : ℕ
  pub captured_at : Text
  pub metadata : List (Text × Text)

-- Why `validate` refuses a record.
pub data Refusal : Type 0 where
  empty_account odd_key non_hex_key wrong_key_len : Refusal

pub data Checked : Type 0 where
  valid : Checked
  refused : Refusal → Checked

-- `' ' | ':' | '-' | '\t' | '\r' | '\n'`.
abbrev pub is_hex_filler : ℕ → Bool
is_hex_filler c = c == 32 || c == 58 || c == 45 || c == 9 || c == 13 || c == 10

-- A text is hex when its characters are: a byte of a longer character is no hex digit.
unfoldable pub validate : CredentialRecord → Checked
validate r =
    if is_empty (trim r.account)
    then refused empty_account
    else if is_empty r.key_hex || not (utf8_len r.key_hex % 2 == 0)
    then refused odd_key
    else if not (all is_ascii_hexdigit r.key_hex)
    then refused non_hex_key
    else if not (r.key_len == utf8_len r.key_hex / 2)
    then refused wrong_key_len
    else valid

-- `char::to_lowercase` is Unicode's table.
module _ (to_lowercase : ℕ → Text) where
  unfoldable pub clean_hex : Text → Text
  clean_hex [] = []
  clean_hex (c ∷ cs) =
      let rest = clean_hex cs in if is_hex_filler c then rest else to_lowercase c ++ rest

  -- `now` is the clock.
  unfoldable pub normalized : Text → CredentialRecord → CredentialRecord
  normalized now r =
      let key_hex = clean_hex r.key_hex in
      record r {
        key_hex = key_hex;
        key_len = if r.key_len == 0 then utf8_len key_hex / 2 else r.key_len;
        captured_at = if is_empty r.captured_at then now else r.captured_at;
      }
