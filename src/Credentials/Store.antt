-- ===== src/Credentials/Store.antt =====
-- `read_credentials`, `append_credential`, `summarize` and `has_kind_for_account` of credentials.rs.
use qq_analyzer.Base.{
  ℕ, suc, List, [], ◌∷◌, ◌++◌, Option, none, some, Bool, true, false, ◌&&◌, ◌==◌, if◌then◌else◌,
  length,
}
use qq_analyzer.Text.{Text, is_empty, trim, text_eq}
use qq_analyzer.Credentials.{
  CredentialKind, pcqq_sqlite_key, infostorage_tea_key, ntqq_sqlcipher_key, other, CredentialRecord,
  Refusal, Checked, valid, refused, validate, normalized,
}

pub data StoreError : Type 0 where
  bad_line : StoreError
  bad_record : Refusal → StoreError

pub data Stored {ℓ} (A : Type ℓ) : Type ℓ where
  ok : A → Stored A
  failed : StoreError → Stored A

abbrev pub checked {ℓ} : {A : Type ℓ} → Checked → Stored A → Stored A
checked valid next = next
checked (refused why) next = failed (bad_record why)

abbrev pub add_record :
    CredentialRecord → Stored (List CredentialRecord) → Stored (List CredentialRecord)
add_record r (ok rs) = ok (r ∷ rs)
add_record r (failed e) = failed e

abbrev pub kind_eq : CredentialKind → CredentialKind → Bool
kind_eq pcqq_sqlite_key pcqq_sqlite_key = true
kind_eq infostorage_tea_key infostorage_tea_key = true
kind_eq ntqq_sqlcipher_key ntqq_sqlcipher_key = true
kind_eq other other = true
kind_eq k l = false

pub record CredentialSummary : Type 0 where
  pub records : ℕ
  pub pcqq_sqlite_keys : ℕ
  pub infostorage_tea_keys : ℕ
  pub ntqq_sqlcipher_keys : ℕ

abbrev pub count_kind : CredentialKind → CredentialSummary → CredentialSummary
count_kind pcqq_sqlite_key s = record s { pcqq_sqlite_keys = suc s.pcqq_sqlite_keys }
count_kind infostorage_tea_key s = record s { infostorage_tea_keys = suc s.infostorage_tea_keys }
count_kind ntqq_sqlcipher_key s = record s { ntqq_sqlcipher_keys = suc s.ntqq_sqlcipher_keys }
count_kind other s = s

abbrev pub count_kinds : List CredentialRecord → CredentialSummary → CredentialSummary
count_kinds [] s = s
count_kinds (r ∷ rs) s = count_kinds rs (count_kind r.kind s)

unfoldable pub summary_of : List CredentialRecord → CredentialSummary
summary_of records = count_kinds records (record {
  records = length records;
  pcqq_sqlite_keys = 0;
  infostorage_tea_keys = 0;
  ntqq_sqlcipher_keys = 0;
})

abbrev pub summary_or_error : Stored (List CredentialRecord) → Stored CredentialSummary
summary_or_error (ok records) = ok (summary_of records)
summary_or_error (failed e) = failed e

unfoldable pub has_kind_for_account : List CredentialRecord → Text → CredentialKind → Bool
has_kind_for_account [] account kind = false
has_kind_for_account (r ∷ rs) account kind =
    let more = has_kind_for_account rs account kind in
    if text_eq r.account account && kind_eq r.kind kind then true else more

-- The character in front of the first of the lines behind it.
abbrev pub join_line : ℕ → List Text → List Text
join_line c [] = (c ∷ []) ∷ []
join_line c (line ∷ lines) = (c ∷ line) ∷ lines

-- `BufRead::lines`: what a newline ends, and what follows the last one. That a carriage return is
-- taken off a line's end is left out, since the reader trims each line.
unfoldable pub file_lines : Text → List Text
file_lines [] = []
file_lines (c ∷ cs) = let more = file_lines cs in if c == 10 then [] ∷ more else join_line c more

-- The file is its text, in UTF-8; `parse` is `serde_json::from_str`, `print` is `to_string`.
module _ (to_lowercase : ℕ → Text) (now : Text) (parse : Text → Option CredentialRecord)
    (print : CredentialRecord → Text) where
  abbrev pub read_line :
      Option CredentialRecord → Stored (List CredentialRecord) → Stored (List CredentialRecord)
  read_line none more = failed bad_line
  read_line (some r) more =
      let clean = normalized to_lowercase now r in checked (validate clean) (add_record clean more)

  -- A line that fails ends the reading, so that an error of a later line does not show.
  unfoldable pub read_lines : List Text → Stored (List CredentialRecord)
  read_lines [] = ok []
  read_lines (line ∷ lines) =
      let more = read_lines lines in
      if is_empty (trim line) then more else read_line (parse (trim line)) more

  unfoldable pub read_credentials : Text → Stored (List CredentialRecord)
  read_credentials file = read_lines (file_lines file)

  -- The file behind it: the record is written at its end as it stands, with a newline behind it. A
  -- file that is not there yet is empty.
  unfoldable pub append_credential : Text → CredentialRecord → Stored Text
  append_credential file r =
      let clean = normalized to_lowercase now r in
      checked (validate clean) (ok (file ++ (print clean ++ 10 ∷ [])))

  -- A path that is no file counts as an empty store.
  unfoldable pub summarize : Option Text → Stored CredentialSummary
  summarize none = ok (summary_of [])
  summarize (some file) = summary_or_error (read_credentials file)
