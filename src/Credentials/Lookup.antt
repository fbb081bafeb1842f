-- ===== src/Credentials/Lookup.antt =====
-- `key_for_path` of credentials.rs and what it calls.
use qq_analyzer.Base.{
  ℕ, zero, suc, List, [], ◌∷◌, map, Option, none, some, Bool, false, not, ◌&&◌, ltb, ◌==◌,
  if◌then◌else◌, all, drop, length,
}
use qq_analyzer.Text.{Text, lit, is_empty, trim, text_eq, to_ascii_lowercase, starts_with}
use qq_analyzer.Credentials.{CredentialKind, pcqq_sqlite_key, ntqq_sqlcipher_key, CredentialRecord}
use qq_analyzer.Credentials.Store.{kind_eq}

abbrev pub eq_ignore_ascii_case : Text → Text → Bool
eq_ignore_ascii_case s t = text_eq (to_ascii_lowercase s) (to_ascii_lowercase t)

abbrev pub backslash : ℕ → ℕ
backslash c = if c == b'/' then b'\\' else c

-- `trim_start_matches("\\\\?\\")`: the prefix is taken off as often as it stands there; the fuel is
-- the length of the text.
abbrev pub trim_verbatim : ℕ → Text → Text
trim_verbatim zero text = text
trim_verbatim (suc fuel) text =
    let rest = trim_verbatim fuel (drop 4 text) in
    if starts_with (lit "\\\\?\\") text then rest else text

unfoldable pub normalize_path_text : Text → Text
normalize_path_text value =
    let text = to_ascii_lowercase (map backslash (trim value)) in trim_verbatim (length text) text

-- `iter().filter(p)`.
abbrev pub keep : (CredentialRecord → Bool) → List CredentialRecord → List CredentialRecord
keep p [] = []
keep p (r ∷ rs) = let kept = keep p rs in if p r then r ∷ kept else kept

abbrev pub has_key : CredentialRecord → Bool
has_key r = ltb 0 r.key_len

abbrev pub same_key : CredentialRecord → CredentialRecord → Bool
same_key candidate r = eq_ignore_ascii_case r.key_hex candidate.key_hex

abbrev pub only_key : List CredentialRecord → Option CredentialRecord
only_key [] = none
only_key (candidate ∷ rest) = if all (same_key candidate) rest then some candidate else none

unfoldable pub unambiguous_key : List CredentialRecord → Option CredentialRecord
unambiguous_key records = only_key (keep has_key records)

-- `metadata.get(key)`.
abbrev pub get_text : Text → List (Text × Text) → Option Text
get_text key [] = none
get_text key ((k, v) ∷ more) =
    let later = get_text key more in if text_eq key k then some v else later

abbrev pub is_some_and : Option Text → (Text → Bool) → Bool
is_some_and none p = false
is_some_and (some t) p = p t

abbrev pub is_exact : CredentialKind → Text → CredentialRecord → Bool
is_exact kind path_norm r = kind_eq r.kind kind && text_eq (normalize_path_text r.db_path) path_norm

abbrev pub has_basename : CredentialKind → Text → CredentialRecord → Bool
has_basename kind basename r =
    kind_eq r.kind kind
    && not (is_empty basename)
    && is_some_and (get_text (lit "basename") r.metadata) (λ v. eq_ignore_ascii_case v basename)

abbrev pub of_kind : CredentialKind → CredentialRecord → Bool
of_kind kind r = kind_eq r.kind kind

-- The first of the lists that is not empty, and else the last.
abbrev pub first_matches :
    List CredentialRecord → List CredentialRecord → List CredentialRecord → List CredentialRecord
first_matches (r ∷ rs) by_name rest = r ∷ rs
first_matches [] (r ∷ rs) rest = r ∷ rs
first_matches [] [] rest = rest

abbrev pub or_empty : Option Text → Text
or_empty none = []
or_empty (some t) = to_ascii_lowercase t

-- `path.display()` and `path.file_name()` are the two texts.
unfoldable pub key_for_path :
    List CredentialRecord → Text → Option Text → CredentialKind → Option CredentialRecord
key_for_path records path_text file_name kind = unambiguous_key (
    first_matches (keep (is_exact kind (normalize_path_text path_text)) records)
      (keep (has_basename kind (or_empty file_name)) records) (keep (of_kind kind) records))

unfoldable pub pcqq_sqlite_key_for_path :
    List CredentialRecord → Text → Option Text → Option CredentialRecord
pcqq_sqlite_key_for_path records path_text file_name =
    key_for_path records path_text file_name pcqq_sqlite_key

unfoldable pub ntqq_sqlcipher_key_for_path :
    List CredentialRecord → Text → Option Text → Option CredentialRecord
ntqq_sqlcipher_key_for_path records path_text file_name =
    key_for_path records path_text file_name ntqq_sqlcipher_key
