-- ===== src/Cfb/OutputStays.antt =====
-- `unique_output_path` of cfb.rs: where a stream is written.
use mathlib.Core.List.{append_assoc, append-nil}
use qq_analyzer.Base.{
  ℕ, zero, suc, ◌≤◌, List, [], ◌∷◌, ◌++◌, map, Bool, true, false, if◌then◌else◌, length, All,
  All-append, Bool-cases, ◌≡◌, ◌≢◌, ◌⊎◌, inl, inr, refl, sym, ap, ◌∙◌, arith,
}
use qq_analyzer.Text.{Text, lit}
use qq_analyzer.Cfb.Paths.{
  safe_part, split_from, output_parts, is_prefix_of_some, proper_fronts, stream_prefixes,
  stem_and_suffix, split_last, first_free, free_path, stream_parts, unique_output_path, numbered,
}
use qq_analyzer.Cfb.SafeParts.{IsClean, IsSafe, safe_part-IsSafe}
use qq_analyzer.Cfb.OutputPath.{stem_and_suffix-AreClean, first_free-IsBelow}

split_last_join :
    (p : Text) (ps : List Text) → (split_last p ps).0 ++ ((split_last p ps).1 ∷ []) ≡ p ∷ ps
split_last_join p [] = refl
split_last_join p (q ∷ qs) = ap (λ t. p ∷ t) (split_last_join q qs)

split_last-append :
    (r : Text) (rs : List Text) (x : Text) (xs : List Text)
    → split_last r (rs ++ (x ∷ xs)) ≡ (r ∷ (rs ++ (split_last x xs).0), (split_last x xs).1)
split_last-append r [] x xs = refl
split_last-append r (s ∷ rs) x xs = ap (λ t. (r ∷ t.0, t.1)) (split_last-append s rs x xs)

split_last-All :
    (P : Text → Type 0) (p : Text) (ps : List Text)
    → All P (p ∷ ps)
    → All P (split_last p ps).0 × P (split_last p ps).1
split_last-All P p [] h = (tt, h.0)
split_last-All P p (q ∷ qs) h =
    let (front, last) = split_last-All P q qs h.1 in ((h.0, front), last)

-- A name of slashes.
abbrev pub slashes : ℕ → Text
slashes zero = []
slashes (suc n) = b'/' ∷ slashes n

split-slashes : (n : ℕ) → split_from [] (slashes n) ≡ []
split-slashes zero = refl
split-slashes (suc n) = split-slashes n

no_empty_front :
    (front ps : List Text) (rest : List (List Text))
    → is_prefix_of_some [] rest ≡ false
    → is_prefix_of_some [] (proper_fronts front ps ++ rest) ≡ false
no_empty_front front [] rest h = h
no_empty_front front (p ∷ []) rest h = h
no_empty_front [] (p ∷ q ∷ ps) rest h = no_empty_front (p ∷ []) (q ∷ ps) rest h
no_empty_front (f ∷ fs) (p ∷ q ∷ ps) rest h = no_empty_front (f ∷ fs ++ (p ∷ [])) (q ∷ ps) rest h

-- The prefixes of streams hold no empty list of parts.
no_empty_prefix :
    (streams : List (Text × ℕ)) → is_prefix_of_some [] (stream_prefixes streams) ≡ false
unfolding stream_prefixes
no_empty_prefix [] = refl
no_empty_prefix ((stream, idx) ∷ rest) =
    no_empty_front [] (output_parts stream) (stream_prefixes rest) (no_empty_prefix rest)

module _ (exists_at : List Text → Bool) where
  slashes_parts :
      (n : ℕ) (prefixes : List (List Text))
      → is_prefix_of_some [] prefixes ≡ false
      → stream_parts exists_at (slashes n) prefixes ≡ []
  slashes_parts n prefixes none_such = rw (split-slashes n) (rw none_such refl)

  -- The path chosen below `root`, for parts that are not none.
  abbrev chosen : ℕ → List Text → Text → List Text → List Text
  chosen rounds root x xs =
      let last = split_last x xs in
      let name = stem_and_suffix last.1 in
      if exists_at (root ++ (x ∷ xs))
      then first_free exists_at rounds 1 (root ++ last.0) name.0 name.1
      else root ++ (x ∷ xs)

  free_path-chosen :
      (rounds : ℕ) (out_root root : List Text) (x : Text) (xs : List Text)
      → free_path exists_at rounds out_root (root ++ (x ∷ xs)) ≡ chosen rounds root x xs
  unfolding free_path
  free_path-chosen rounds out_root [] x xs = refl
  free_path-chosen rounds out_root (r ∷ rs) x xs =
      ap
        (λ last.
          if exists_at (r ∷ rs ++ (x ∷ xs))
          then first_free exists_at rounds 1 last.0 (stem_and_suffix last.1).0
              (stem_and_suffix last.1).1
          else r ∷ rs ++ (x ∷ xs))
        (split_last-append r rs x xs)

  -- A path of safe folders below the root with a clean file name, which is free or the last resort.
  pub record StaysBelow (root path : List Text) : Type 0 where
    pub folders : List Text
    pub stem : Text
    pub file : Text
    pub below : path ≡ root ++ folders ++ (file ∷ [])
    pub safe : All IsSafe folders
    pub clean : All IsClean file
    pub nonempty : 1 ≤ length file
    pub free : (exists_at path ≡ false) ⊎ (file ≡ stem ++ lit "__overflow")

  chosen-StaysBelow :
      (rounds : ℕ) (root : List Text) (x : Text) (xs : List Text)
      → All IsSafe (x ∷ xs)
      → StaysBelow root (chosen rounds root x xs)
  chosen-StaysBelow rounds root x xs h =
      let (folders, last) = split_last-All IsSafe x xs h in
      let name = (split_last x xs).1 in
      let (stem, suffix) = stem_and_suffix-AreClean name last.clean in
      elim (Bool-cases (exists_at (root ++ (x ∷ xs)))) [
        | inl taken ↦
            let found =
              first_free-IsBelow exists_at rounds 1 (root ++ (split_last x xs).0)
                (stem_and_suffix name).0 (stem_and_suffix name).1 stem suffix in
            rw taken (record {
              folders = (split_last x xs).0;
              stem = (stem_and_suffix name).0;
              file = found.name;
              below = found.below;
              safe = folders;
              clean = found.clean;
              nonempty = found.nonempty;
              free = found.free;
            })
        | inr free ↦ rw free (record {
          folders = (split_last x xs).0;
          stem = [];
          file = name;
          below =
              ap (λ t. root ++ t) (sym (split_last_join x xs))
              ∙ sym (append_assoc root (split_last x xs).0 (name ∷ []));
          safe = folders;
          clean = last.clean;
          nonempty = last.nonempty;
          free = inl free;
        })
      ]

  map-IsSafe : (names : List Text) → All IsSafe (map safe_part names)
  map-IsSafe [] = tt
  map-IsSafe (n ∷ ns) = (safe_part-IsSafe n, map-IsSafe ns)

  stream_name-IsSafe : IsSafe (lit "__stream")
  stream_name-IsSafe = record {
    nonempty = omega arith;
    short = omega arith;
    clean = (refl, (refl, (refl, (refl, (refl, (refl, (refl, (refl, tt))))))));
    not_dot = λ e. ground (arith, e);
    not_dots = λ e. ground (arith, e);
  }

  stays_lem :
      (out_root parts : List Text)
      → All IsSafe parts
      → parts ≢ []
      → StaysBelow out_root (free_path exists_at 999999 out_root (out_root ++ parts))
  stays_lem out_root [] h some_part = absurd (some_part refl)
  stays_lem out_root (x ∷ xs) h some_part =
      rw (free_path-chosen 999999 out_root out_root x xs) (chosen-StaysBelow 999999 out_root x xs h)

  nonempty_append : (xs : List Text) (y : Text) → (xs ++ (y ∷ [])) ≢ []
  nonempty_append [] y e = ground (arith, e)
  nonempty_append (x ∷ xs) y e = ground (arith, e)

  stream_parts_lem :
      (stream : Text) (prefixes : List (List Text))
      → output_parts stream ≢ []
      → All IsSafe (stream_parts exists_at stream prefixes)
        × (stream_parts exists_at stream prefixes ≢ [])
  stream_parts_lem stream prefixes some_part =
      let safe = map-IsSafe (split_from [] stream) in
      elim (Bool-cases (is_prefix_of_some (output_parts stream) prefixes)) [
        | inl folder ↦ rw folder (
          All-append IsSafe (output_parts stream) (lit "__stream" ∷ []) safe
              (stream_name-IsSafe, tt),
          nonempty_append (output_parts stream) (lit "__stream"),
        )
        | inr file ↦ rw file (safe, some_part)
      ]

  -- A stream whose name has a part between slashes is written below the output folder, in folders
  -- that are plain names, to a file that is not there yet or has the name of the last resort.
  pub unique_output_path-StaysBelow :
      (out_root : List Text) (stream : Text) (prefixes : List (List Text))
      → output_parts stream ≢ []
      → StaysBelow out_root (unique_output_path exists_at out_root stream prefixes)
  unfolding unique_output_path
  unique_output_path-StaysBelow out_root stream prefixes some_part =
      let (safe, given) = stream_parts_lem stream prefixes some_part in
      stays_lem out_root (stream_parts exists_at stream prefixes) safe given

  first_try :
      (rounds i : ℕ) (parent : List Text) (stem suffix : Text)
      → exists_at (parent ++ (numbered stem suffix i ∷ [])) ≡ false
      → first_free exists_at (suc rounds) i parent stem suffix
        ≡ parent ++ (numbered stem suffix i ∷ [])
  first_try rounds i parent stem suffix free = rw (free, first_free) refl

  chosen_beside :
      (rounds : ℕ) (up : List Text) (folder : Text)
      → exists_at (up ++ (folder ∷ [])) ≡ true
      → exists_at (up ++ (numbered (stem_and_suffix folder).0 (stem_and_suffix folder).1 1 ∷ []))
        ≡ false
      → chosen (suc rounds) up folder []
        ≡ up ++ (numbered (stem_and_suffix folder).0 (stem_and_suffix folder).1 1 ∷ [])
  chosen_beside rounds up folder there free = rw there (
      ap
        (λ t.
          first_free exists_at (suc rounds) 1 t (stem_and_suffix folder).0
            (stem_and_suffix folder).1)
        (append-nil up)
      ∙ first_try rounds 1 up (stem_and_suffix folder).0 (stem_and_suffix folder).1 free)

  -- Whatever other streams there are, a stream whose name is slashes only is written beside the
  -- output folder, not in it, if that folder exists and the numbered name next to it is free.
  pub unique_output_path-escapes :
      (up : List Text) (folder : Text) (n : ℕ) (streams : List (Text × ℕ))
      → exists_at (up ++ (folder ∷ [])) ≡ true
      → exists_at (up ++ (numbered (stem_and_suffix folder).0 (stem_and_suffix folder).1 1 ∷ []))
        ≡ false
      → unique_output_path exists_at (up ++ (folder ∷ [])) (slashes n) (stream_prefixes streams)
        ≡ up ++ (numbered (stem_and_suffix folder).0 (stem_and_suffix folder).1 1 ∷ [])
  unfolding unique_output_path
  unique_output_path-escapes up folder n streams there free =
      ap (λ t. free_path exists_at 999999 (up ++ (folder ∷ [])) (up ++ (folder ∷ []) ++ t))
        (slashes_parts n (stream_prefixes streams) (no_empty_prefix streams))
      ∙ ap (free_path exists_at 999999 (up ++ (folder ∷ []))) (append-nil (up ++ (folder ∷ [])))
      ∙ free_path-chosen 999999 (up ++ (folder ∷ [])) up folder []
      ∙ chosen_beside 999998 up folder there free
