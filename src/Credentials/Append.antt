-- ===== src/Credentials/Append.antt =====
-- `append_credential` and `read_credentials` of credentials.rs together.
use mathlib.Core.List.{append_assoc}
use qq_analyzer.Base.{
  ℕ, List, [], ◌∷◌, ◌++◌, Option, some, true, false, if◌then◌else◌, All, All-append, subst,
  Bool-cases, Option-cases, ◌≡◌, inl, inr, refl, sym, ap, ◌∙◌, arith,
}
use qq_analyzer.Text.{Text, is_empty, trim}
use qq_analyzer.Credentials.{CredentialRecord, Checked, valid, refused, validate, normalized}
use qq_analyzer.Credentials.Store.{
  Stored, ok, failed, checked, add_record, read_line, file_lines, read_lines, read_credentials,
  append_credential,
}
use qq_analyzer.Credentials.Lines.{is_closed, is_one_line, file_lines-line, file_lines-append}
use qq_analyzer.Credentials.Normal.{IsKey, validate-IsKey, normalized-normalized}

checked_cases {ℓ} :
    {A : Type ℓ} (c : Checked) (next : Stored A) {a : A}
    → checked c next ≡ ok a
    → (c ≡ valid) × (next ≡ ok a)
checked_cases valid next e = (refl, e)
checked_cases (refused why) next e = absurd (ground arith)

added_cases :
    (r : CredentialRecord) (more : Stored (List CredentialRecord)) {rs : List CredentialRecord}
    → add_record r more ≡ ok rs
    → (rest : List CredentialRecord) × (more ≡ ok rest) × (rs ≡ r ∷ rest)
added_cases r (ok rest) {rs} e = (rest, refl, ground arith)
added_cases r (failed why) e = absurd (ground arith)

ok_inj {ℓ} : {A : Type ℓ} {a b : A} → ok a ≡ ok b → a ≡ b
ok_inj e = ground arith

All-keys : (rs : List CredentialRecord) → All (λ r. validate r ≡ valid) rs → All IsKey rs
All-keys [] h = tt
All-keys (r ∷ rs) h = (validate-IsKey r h.0, All-keys rs h.1)

module _ (to_lowercase : ℕ → Text) (now : Text) (parse : Text → Option CredentialRecord)
    (print : CredentialRecord → Text) where
  abbrev read : List Text → Stored (List CredentialRecord)
  read = read_lines to_lowercase now parse print

  abbrev line_of : Text → Stored (List CredentialRecord) → Stored (List CredentialRecord)
  line_of line more =
      if is_empty (trim line)
      then more
      else read_line to_lowercase now parse print (parse (trim line)) more

  -- A line that reads without an error puts the same records before whatever is behind it.
  line_lem :
      (line : Text) (more : Stored (List CredentialRecord)) {rs : List CredentialRecord}
      → line_of line more ≡ ok rs
      → (front rest : List CredentialRecord) × (more ≡ ok rest)
        × (rs ≡ front ++ rest)
        × ((other : List CredentialRecord) → line_of line (ok other) ≡ ok (front ++ other))
        × All (λ r. validate r ≡ valid) front
  line_lem line more e = elim (Bool-cases (is_empty (trim line))) [
    | inl blank ↦ ([], _, rw blank at e, refl, λ other. rw blank refl, tt)
    | inr text ↦ elim (Option-cases (parse (trim line))) [
      | inl bad ↦ absurd (ground (arith, rw (text, bad) at e))
      | inr (r, good) ↦
          let (ok_record, ok_more) =
            checked_cases (validate (normalized to_lowercase now r)) _ (rw (text, good) at e) in
          let (rest, em, ers) = added_cases (normalized to_lowercase now r) more ok_more in
          (
            normalized to_lowercase now r ∷ [],
            rest,
            em,
            ers,
            λ other. rw (text, good, ok_record) refl,
            (ok_record, tt),
          )
    ]
  ]

  read_lines-append :
      (lines : List Text) (line : Text) {rs new : List CredentialRecord}
      → read lines ≡ ok rs
      → read (line ∷ []) ≡ ok new
      → read (lines ++ (line ∷ [])) ≡ ok (rs ++ new)
  unfolding read_lines
  read_lines-append [] line {rs} {new} e en = en ∙ ap (λ t. ok (t ++ new)) (ok_inj e)
  read_lines-append (l ∷ lines) line {rs} {new} e en =
      let (front, rest, em, ers, again, checks) = line_lem l (read lines) e in
      ap (line_of l) (read_lines-append lines line em en)
      ∙ again (rest ++ new)
      ∙ ap ok (sym (append_assoc front rest new) ∙ ap (λ t. t ++ new) (sym ers))

  read_lines-IsKey :
      (lines : List Text) {rs : List CredentialRecord} → read lines ≡ ok rs → All IsKey rs
  unfolding read_lines
  read_lines-IsKey [] {rs} e = subst (All IsKey) (ok_inj e) tt
  read_lines-IsKey (l ∷ lines) {rs} e =
      let (front, rest, em, ers, again, checks) = line_lem l (read lines) e in
      subst (All IsKey) (sym ers)
        (All-append IsKey front rest (All-keys front checks) (read_lines-IsKey lines em))

  -- Every record that is read has a usable key.
  pub read_credentials-IsKey :
      (file : Text) {rs : List CredentialRecord}
      → read_credentials to_lowercase now parse print file ≡ ok rs
      → All IsKey rs
  unfolding read_credentials
  read_credentials-IsKey file e = read_lines-IsKey (file_lines file) e

  -- Where a file is empty or ends with a newline, appending a record that passes the checks, then
  -- reading, gives the records that were there and the normalised record, if its printed form has no
  -- newline, is not blank and parses back, the clock gives a text, and lower case is lower case again.
  pub read_credentials-append_credential :
      (lower_again : (c : ℕ) → All (λ d. to_lowercase d ≡ d ∷ []) (to_lowercase c))
      → is_empty now ≡ false
      → (file file' : Text) (r : CredentialRecord) {rs : List CredentialRecord}
      → is_closed file ≡ true
      → is_one_line (print (normalized to_lowercase now r)) ≡ true
      → parse (trim (print (normalized to_lowercase now r))) ≡ some (normalized to_lowercase now r)
      → is_empty (trim (print (normalized to_lowercase now r))) ≡ false
      → read_credentials to_lowercase now parse print file ≡ ok rs
      → append_credential to_lowercase now parse print file r ≡ ok file'
      → read_credentials to_lowercase now parse print file'
        ≡ ok (rs ++ (normalized to_lowercase now r ∷ []))
  unfolding append_credential read_credentials read_lines
  read_credentials-append_credential lower_again some_time file file' r {rs} closed one_line parses
        printed e ea =
      let (passes, el) = checked_cases (validate (normalized to_lowercase now r)) _ ea in
      let again = normalized-normalized to_lowercase lower_again now some_time r passes in
      let line = print (normalized to_lowercase now r) in
      let lines : file_lines (file ++ (line ++ 10 ∷ [])) ≡ file_lines file ++ (line ∷ []) =
        file_lines-append file (line ++ 10 ∷ []) closed
        ∙ ap (λ t. file_lines file ++ t) (file_lines-line line one_line) in
      ap (λ t. read (file_lines t)) (sym (ok_inj el))
      ∙ ap read lines
      ∙ read_lines-append (file_lines file) line e (rw (printed, parses, again, passes) refl)
