-- ===== src/Cfb/Paths.antt =====
-- `safe_part`, `stream_prefixes` and `unique_output_path` of cfb.rs.
use qq_analyzer.Base.{
  Option, none, some, zero, suc, ℕ, List, [], ◌∷◌, ◌++◌, map, Bool, true, false, ◌&&◌, ◌||◌, ltb,
  within, ◌==◌, if◌then◌else◌, length, take,
}
use qq_analyzer.Text.{lit, is_empty, decimal, Text, trim, trim_end_by, text_eq}

-- `char::is_control`: the general category Cc.
abbrev pub is_control : ℕ → Bool
is_control c = ltb c 0x20 || within 0x7f 0x9f c

-- `'\\' | '/' | ':' | '<' | '>' | '|' | '?' | '*'`.
abbrev pub is_reserved : ℕ → Bool
is_reserved c =
    c == b'\\'
    || c == b'/'
    || c == b':'
    || c == b'<'
    || c == b'>'
    || c == b'|'
    || c == b'?'
    || c == b'*'

abbrev pub safe_char : ℕ → ℕ
safe_char c = if is_control c || is_reserved c then b'_' else c

abbrev pub is_dot_or_space : ℕ → Bool
is_dot_or_space c = c == b'.' || c == b' '

abbrev pub or_underscore : Text → Text
or_underscore [] = b'_' ∷ []
or_underscore (c ∷ cs) = c ∷ cs

-- `take(180)` leaves a text of at most 180 characters as it is.
unfoldable pub safe_part : Text → Text
safe_part name =
    let out = map safe_char name in
    let safe = or_underscore (trim_end_by is_dot_or_space (trim out)) in
    if ltb 180 (length safe) then take 180 safe else safe

-- `stream.split('/').filter(|part| !part.is_empty())`: `part` is what stands since the last slash.
abbrev end_part : Text → List Text → List Text
end_part [] parts = parts
end_part (c ∷ cs) parts = (c ∷ cs) ∷ parts

abbrev pub split_from : Text → Text → List Text
split_from part [] = end_part part []
split_from part (c ∷ cs) = elim (c == b'/') [
  | true ↦ end_part part (split_from [] cs)
  | false ↦ split_from (part ++ (c ∷ [])) cs
]

abbrev pub output_parts : Text → List Text
output_parts stream = map safe_part (split_from [] stream)

-- `parts[..i]` for `i` in `1..parts.len()`, longest last.
abbrev pub proper_fronts : List Text → List Text → List (List Text)
proper_fronts front [] = []
proper_fronts front (p ∷ []) = []
proper_fronts front (p ∷ q ∷ ps) = (front ++ (p ∷ [])) ∷ proper_fronts (front ++ (p ∷ [])) (q ∷ ps)

unfoldable pub stream_prefixes : List (Text × ℕ) → List (List Text)
stream_prefixes [] = []
stream_prefixes ((stream, idx) ∷ rest) =
    proper_fronts [] (output_parts stream) ++ stream_prefixes rest

abbrev pub parts_eq : List Text → List Text → Bool
parts_eq [] [] = true
parts_eq [] (q ∷ qs) = false
parts_eq (p ∷ ps) [] = false
parts_eq (p ∷ ps) (q ∷ qs) = text_eq p q && parts_eq ps qs

abbrev pub is_prefix_of_some : List Text → List (List Text) → Bool
is_prefix_of_some parts [] = false
is_prefix_of_some parts (f ∷ fs) = parts_eq parts f || is_prefix_of_some parts fs

-- `rsplitn(2, '.')`: what stands before and behind the last dot, if there is one.
abbrev pub join_dot : ℕ → Text → Option (Text × Text) → Option (Text × Text)
join_dot c cs none = if c == b'.' then some ([], cs) else none
join_dot c cs (some (before, after)) = some (c ∷ before, after)

abbrev pub split_dot : Text → Option (Text × Text)
split_dot [] = none
split_dot (c ∷ cs) = join_dot c cs (split_dot cs)

-- `Path::file_stem` and `Path::extension` of a path's last part, with what the
-- code puts for none: a last part `..` has neither.
abbrev pub stem_split : Text → Option (Text × Text) → Text × Text
stem_split name none = (name, [])
stem_split name (some ([], after)) = (name, [])
stem_split name (some (c ∷ before, after)) = (c ∷ before, after)

abbrev pub stem_and_suffix : Text → Text × Text
stem_and_suffix name =
    if text_eq name (lit "..") then (lit "_", []) else stem_split name (split_dot name)

abbrev pub numbered : Text → Text → ℕ → Text
numbered stem suffix i =
    if is_empty suffix
    then stem ++ lit "__" ++ decimal i
    else stem ++ lit "__" ++ decimal i ++ lit "." ++ suffix

-- A path as its parts. `base.parent()` and the last part of `base`, for a path with a part.
abbrev pub split_last : Text → List Text → List Text × Text
split_last p [] = ([], p)
split_last p (q ∷ qs) = let more = split_last q qs in (p ∷ more.0, more.1)

module _ (exists_at : List Text → Bool) where
  -- `for i in 1..1_000_000`, on the number of rounds that are left.
  abbrev pub first_free : ℕ → ℕ → List Text → Text → Text → List Text
  first_free zero i parent stem suffix = parent ++ ((stem ++ lit "__overflow") ∷ [])
  first_free (suc rounds) i parent stem suffix =
      let candidate = parent ++ (numbered stem suffix i ∷ []) in
      elim (exists_at candidate) [
        | true ↦ first_free rounds (suc i) parent stem suffix
        | false ↦ candidate
      ]

  -- `rounds` is 999_999. A path without parts has no parent and no name.
  unfoldable pub free_path : ℕ → List Text → List Text → List Text
  free_path rounds out_root [] =
      if exists_at [] then first_free rounds 1 out_root (lit "_") [] else []
  free_path rounds out_root (p ∷ ps) =
      let last = split_last p ps in
      let name = stem_and_suffix last.1 in
      if exists_at (p ∷ ps) then first_free rounds 1 last.0 name.0 name.1 else p ∷ ps

  abbrev pub stream_parts : Text → List (List Text) → List Text
  stream_parts stream prefixes =
      let parts = output_parts stream in
      if is_prefix_of_some parts prefixes then parts ++ (lit "__stream" ∷ []) else parts

  unfoldable pub unique_output_path : List Text → Text → List (List Text) → List Text
  unique_output_path out_root stream prefixes =
      free_path 999999 out_root (out_root ++ stream_parts stream prefixes)
