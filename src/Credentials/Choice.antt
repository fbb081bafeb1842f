-- ===== src/Credentials/Choice.antt =====
-- `key_for_path` of credentials.rs: the record it chooses.
use qq_analyzer.Base.{
  ◌≤◌, List, [], ◌∷◌, Option, some, Bool, true, false, ◌&&◌, all, Bool-cases, ◌≡◌, ◌⊎◌, inl, inr,
  refl, sym, ap, ◌∙◌, arith, subst,
}
use qq_analyzer.Text.{Text, text_eq→eq, text_eq_refl, to_ascii_lowercase}
use qq_analyzer.Credentials.{CredentialKind, CredentialRecord}
use qq_analyzer.Credentials.Store.{kind_eq}
use qq_analyzer.Credentials.Lookup.{
  keep, has_key, same_key, only_key, unambiguous_key, is_exact, has_basename, of_kind,
  first_matches, or_empty, normalize_path_text, key_for_path,
}

-- Membership.
abbrev pub Has : CredentialRecord → List CredentialRecord → Type 0
Has r [] = ⊥
Has r (s ∷ ss) = (s ≡ r) ⊎ Has r ss

Has-keep :
    (p : CredentialRecord → Bool) (r : CredentialRecord) (rs : List CredentialRecord)
    → Has r (keep p rs)
    → Has r rs × (p r ≡ true)
Has-keep p r [] h = elim h [ ]
Has-keep p r (s ∷ ss) h = elim (Bool-cases (p s)) [
  | inl kept ↦ elim (rw kept at h) [
    | inl e ↦ (inl e, subst (λ t. p t ≡ true) e kept)
    | inr more ↦ let (there, passes) = Has-keep p r ss more in (inr there, passes)
  ]
  | inr dropped ↦ let (there, passes) = Has-keep p r ss (rw dropped at h) in (inr there, passes)
]

keep-Has :
    (p : CredentialRecord → Bool) (r : CredentialRecord) (rs : List CredentialRecord)
    → Has r rs
    → p r ≡ true
    → Has r (keep p rs)
keep-Has p r [] h e = elim h [ ]
keep-Has p r (s ∷ ss) (inl same) e = rw (subst (λ t. p t ≡ true) (sym same) e) (inl same)
keep-Has p r (s ∷ ss) (inr more) e = elim (Bool-cases (p s)) [
  | inl kept ↦ rw kept (inr (keep-Has p r ss more e))
  | inr dropped ↦ rw dropped (keep-Has p r ss more e)
]

all-Has :
    (p : CredentialRecord → Bool) (r : CredentialRecord) (rs : List CredentialRecord)
    → all p rs ≡ true
    → Has r rs
    → p r ≡ true
all-Has p r [] h k = elim k [ ]
all-Has p r (s ∷ ss) h (inl e) = subst (λ t. p t ≡ true) e (ground arith)
all-Has p r (s ∷ ss) h (inr more) = all-Has p r ss (ground arith) more

-- Two keys that are equal but for the case of their letters.
abbrev pub lower_key : CredentialRecord → Text
lower_key r = to_ascii_lowercase r.key_hex

same_key→eq : (r s : CredentialRecord) → same_key r s ≡ true → lower_key s ≡ lower_key r
same_key→eq r s h = text_eq→eq (lower_key s) (lower_key r) h

only_key_lem :
    (rs : List CredentialRecord) (r : CredentialRecord)
    → only_key rs ≡ some r
    → Has r rs × ((s : CredentialRecord) → Has s rs → lower_key s ≡ lower_key r)
only_key_lem [] r e = absurd (ground arith)
only_key_lem (c ∷ cs) r e = elim (Bool-cases (all (same_key c) cs)) [
  | inl same ↦
      let chosen : c ≡ r = ground (arith, rw same at e) in
      (
        inl chosen,
        λ s h. elim h [
          | inl here ↦ ap lower_key (sym here ∙ chosen)
          | inr more ↦ same_key→eq c s (all-Has (same_key c) s cs same more) ∙ ap lower_key chosen
        ],
      )
  | inr differ ↦ absurd (ground (arith, rw differ at e))
]

key_lem :
    (rs : List CredentialRecord) (r : CredentialRecord)
    → unambiguous_key rs ≡ some r
    → Has r rs
      × (1 ≤ r.key_len)
      × ((s : CredentialRecord) → Has s rs → 1 ≤ s.key_len → lower_key s ≡ lower_key r)
unfolding unambiguous_key
key_lem rs r e =
    let (chosen, agree) = only_key_lem (keep has_key rs) r e in
    let (there, keyed) = Has-keep has_key r rs chosen in
    (there, ground (arith, keyed), λ s h k. agree s (keep-Has has_key s rs h (ground arith)))

first_matches_cases :
    (exact by_name rest : List CredentialRecord)
    → (first_matches exact by_name rest ≡ exact)
      ⊎ (first_matches exact by_name rest ≡ by_name)
      ⊎ (first_matches exact by_name rest ≡ rest)
first_matches_cases (r ∷ rs) by_name rest = inl refl
first_matches_cases [] (r ∷ rs) rest = inr (inl refl)
first_matches_cases [] [] rest = inr (inr refl)

first_matches-exact :
    (s : CredentialRecord) (exact by_name rest : List CredentialRecord)
    → Has s exact
    → first_matches exact by_name rest ≡ exact
first_matches-exact s [] by_name rest h = elim h [ ]
first_matches-exact s (r ∷ rs) by_name rest h = refl

and_left : (a b : Bool) → (a && b) ≡ true → a ≡ true
and_left true b h = refl
and_left false b h = h

and_right : (a b : Bool) → (a && b) ≡ true → b ≡ true
and_right true b h = h
and_right false b h = ground arith

Has-tier :
    (records : List CredentialRecord) (path_norm basename : Text) (kind : CredentialKind)
    (r : CredentialRecord)
    → Has r (
        first_matches
          (keep (is_exact kind path_norm) records)
          (keep (has_basename kind basename) records)
          (keep (of_kind kind) records))
    → Has r records × (kind_eq r.kind kind ≡ true)
Has-tier records path_norm basename kind r h =
    elim (first_matches_cases (keep (is_exact kind path_norm) records)
      (keep (has_basename kind basename) records) (keep (of_kind kind) records)) [
        | inl e ↦
            let (there, match) = Has-keep (is_exact kind path_norm) r records (subst (Has r) e h) in
            (there, and_left _ _ match)
        | inr (inl e) ↦
            let (there, match) =
              Has-keep (has_basename kind basename) r records (subst (Has r) e h) in
            (there, and_left _ _ (and_left _ _ match))
        | inr (inr e) ↦ Has-keep (of_kind kind) r records (subst (Has r) e h)
      ]

-- The record that is chosen is one of the records, has the kind that was asked for, and has a key.
pub key_for_path-Has :
    (records : List CredentialRecord) (path_text : Text) (file_name : Option Text)
    (kind : CredentialKind) (r : CredentialRecord)
    → key_for_path records path_text file_name kind ≡ some r
    → Has r records × (kind_eq r.kind kind ≡ true) × (1 ≤ r.key_len)
unfolding key_for_path
key_for_path-Has records path_text file_name kind r e =
    let (tier, keyed, agree) = key_lem _ r e in
    let (there, of_kind) =
      Has-tier records (normalize_path_text path_text) (or_empty file_name) kind r tier in
    (there, of_kind, keyed)

-- If a record of the kind has a key and, normalised, the very path, then whatever is chosen has the
-- same key, so that nothing is chosen where two such records have different keys.
pub key_for_path-exact :
    (records : List CredentialRecord) (path_text : Text) (file_name : Option Text)
    (kind : CredentialKind) (r s : CredentialRecord)
    → key_for_path records path_text file_name kind ≡ some r
    → Has s records
    → kind_eq s.kind kind ≡ true
    → normalize_path_text s.db_path ≡ normalize_path_text path_text
    → 1 ≤ s.key_len
    → (lower_key r ≡ lower_key s) × (normalize_path_text r.db_path ≡ normalize_path_text path_text)
unfolding key_for_path
key_for_path-exact records path_text file_name kind r s e there same_kind same_path keyed =
    let path_norm = normalize_path_text path_text in
    let exact =
      keep-Has (is_exact kind path_norm) s records there
        (rw (same_kind, same_path) (text_eq_refl path_norm)) in
    let only : unambiguous_key (keep (is_exact kind path_norm) records) ≡ some r =
      ap unambiguous_key (sym (first_matches-exact s _ _ _ exact)) ∙ e in
    let (chosen, own_key, agree) = key_lem (keep (is_exact kind path_norm) records) r only in
    let (_, match) = Has-keep (is_exact kind path_norm) r records chosen in
    (sym (agree s exact keyed), text_eq→eq _ _ (and_right _ _ match))
