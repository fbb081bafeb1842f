-- ===== src/Credentials/Examples.antt =====
-- The theorems on credentials.rs at concrete records.
use mathlib.Core.List.{reverse}
use qq_analyzer.Base.{
  ℕ, List, [], ◌∷◌, ◌++◌, ◌==◌, Option, none, some, true, false, All, ◌≡◌, inl, refl, arith,
}
use qq_analyzer.Text.{Text, lit, to_ascii_lower}
use qq_analyzer.Credentials.{
  pcqq_sqlite_key, non_hex_key, CredentialRecord, validate, clean_hex, normalized,
}
use qq_analyzer.Credentials.Store.{
  Stored, ok, failed, bad_record, file_lines, read_lines, read_credentials, append_credential,
}
use qq_analyzer.Credentials.Lookup.{unambiguous_key, normalize_path_text, key_for_path}
use qq_analyzer.Credentials.Normal.{IsKey}
use qq_analyzer.Credentials.Append.{read_credentials-IsKey, read_credentials-append_credential}
use qq_analyzer.Credentials.Choice.{lower_key, key_for_path-exact}

abbrev record_at : Text → Text → CredentialRecord
record_at path key = record {
  kind = pcqq_sqlite_key;
  account = lit "account";
  source = [];
  db_path = path;
  key_hex = key;
  key_len = 2;
  captured_at = lit "t";
  metadata = [];
}

abbrev two_records : List CredentialRecord
two_records = record_at (lit "a.db") (lit "00fF") ∷ record_at (lit "b.db") (lit "2233") ∷ []

chooses_first :
    key_for_path two_records (lit "A.db") none pcqq_sqlite_key
    ≡ some (record_at (lit "a.db") (lit "00fF"))
unfolding key_for_path unambiguous_key normalize_path_text
chooses_first = refl

refuses_both : key_for_path two_records (lit "c.db") none pcqq_sqlite_key ≡ none
unfolding key_for_path unambiguous_key normalize_path_text
refuses_both = refl

key_for_path-exact_example :
    (lower_key (record_at (lit "a.db") (lit "00fF"))
      ≡ lower_key (record_at (lit "a.db") (lit "00fF")))
    × (normalize_path_text (lit "a.db") ≡ normalize_path_text (lit "A.db"))
unfolding normalize_path_text
key_for_path-exact_example =
    key_for_path-exact two_records (lit "A.db") none pcqq_sqlite_key
      (record_at (lit "a.db") (lit "00fF")) (record_at (lit "a.db") (lit "00fF")) chooses_first
      (inl refl) refl refl (omega arith)

abbrev ascii_lowercase : ℕ → Text
ascii_lowercase c = to_ascii_lower c ∷ []

ascii_lower_again : (c : ℕ) → All (λ d. ascii_lowercase d ≡ d ∷ []) (ascii_lowercase c)
ascii_lower_again c = (ground arith, tt)

abbrev small_record : CredentialRecord
small_record = record_at (lit "a.db") (lit "00 FF")

abbrev clean_record : CredentialRecord
clean_record = record_at (lit "a.db") (lit "00ff")

-- A printed record is its path and its key, which is enough for records that have the rest in
-- common; a line without a space is none.
abbrev small_print : CredentialRecord → Text
small_print r = r.db_path ++ 32 ∷ r.key_hex

abbrev at_space : Text → Text → Option CredentialRecord
at_space path [] = none
at_space path (c ∷ cs) = elim (c == 32) [
  | true ↦ some (record_at (reverse path) cs)
  | false ↦ at_space (c ∷ path) cs
]

abbrev small_parse : Text → Option CredentialRecord
small_parse line = at_space [] line

abbrev read_small : Text → Stored (List CredentialRecord)
read_small = read_credentials ascii_lowercase (lit "now") small_parse small_print

abbrev append_small : Text → CredentialRecord → Stored Text
append_small = append_credential ascii_lowercase (lit "now") small_parse small_print

abbrev one_line : Text
one_line = lit "b.db 22 33" ++ 10 ∷ []

abbrev two_lines : Text
two_lines = one_line ++ lit "a.db 00ff" ++ 10 ∷ []

reads_one : read_small one_line ≡ ok (record_at (lit "b.db") (lit "2233") ∷ [])
unfolding read_credentials read_lines file_lines normalized clean_hex validate
reads_one = refl

appends_one : append_small one_line small_record ≡ ok two_lines
unfolding append_credential normalized clean_hex validate
appends_one = refl

normal_record : normalized ascii_lowercase (lit "now") small_record ≡ clean_record
unfolding normalized clean_hex
normal_record = refl

-- Without a newline behind the last line, the new record is joined to it, and the key that results is
-- no hexadecimal text: the file reads no more.
joins_lines : append_small (lit "b.db 2233") small_record ≡ ok (lit "b.db 2233a.db 00ff" ++ 10 ∷ [])
unfolding append_credential normalized clean_hex validate
joins_lines = refl

lost_file : read_small (lit "b.db 2233a.db 00ff" ++ 10 ∷ []) ≡ failed (bad_record non_hex_key)
unfolding read_credentials read_lines file_lines normalized clean_hex validate
lost_file = refl

read_credentials-IsKey_example : All IsKey (record_at (lit "b.db") (lit "2233") ∷ [])
read_credentials-IsKey_example =
    read_credentials-IsKey ascii_lowercase (lit "now") small_parse small_print one_line reads_one

read_credentials-append_credential_example :
    read_small two_lines
    ≡ ok (
        record_at (lit "b.db") (lit "2233")
        ∷ normalized ascii_lowercase (lit "now") small_record
        ∷ [])
unfolding normalized clean_hex
read_credentials-append_credential_example =
    read_credentials-append_credential ascii_lowercase (lit "now") small_parse small_print
      ascii_lower_again refl one_line two_lines small_record refl refl refl refl reads_one
      appends_one
