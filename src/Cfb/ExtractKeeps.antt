-- ===== src/Cfb/ExtractKeeps.antt =====
-- `extract_cfb_with_limit` of cfb.rs: what is on the disk when the streams are written.
use qq_analyzer.Base.{
  ℕ, zero, suc, List, [], ◌∷◌, ◌++◌, Option, none, some, Bool, true, false, Bool-cases, ◌≡◌, ◌⊎◌,
  inl, inr, refl, sym, ap, subst, ◌∙◌, arith,
}
use qq_analyzer.Text.{Text, lit}
use qq_analyzer.Cfb.Paths.{
  parts_eq, numbered, split_last, stem_and_suffix, first_free, free_path, stream_parts,
  unique_output_path,
}
use qq_analyzer.Cfb.Disk.{
  FilePath, Disk, is_folder, is_some, content_at, exists_on, make_folders, create_dir_all,
  write_file, parts_eq→eq, parts_eq_refl,
}
use qq_analyzer.Cfb.Extract.{◌and_then◌, make_parent, write_stream}

-- A path of the last resort, when all the numbered names are taken.
abbrev pub IsLastResort : FilePath → Type 0
IsLastResort path =
    (parent : FilePath) × (stem : Text) × (path ≡ parent ++ ((stem ++ lit "__overflow") ∷ []))

module _ (exists_at : FilePath → Bool) where
  first_free_free :
      (rounds i : ℕ) (parent : FilePath) (stem suffix : Text)
      → (exists_at (first_free exists_at rounds i parent stem suffix) ≡ false)
        ⊎ IsLastResort (first_free exists_at rounds i parent stem suffix)
  first_free_free zero i parent stem suffix = inr (parent, stem, refl)
  first_free_free (suc rounds) i parent stem suffix =
      elim (Bool-cases (exists_at (parent ++ (numbered stem suffix i ∷ [])))) [
        | inl there ↦ rw (there, first_free) (first_free_free rounds (suc i) parent stem suffix)
        | inr free ↦ rw (free, first_free) (inl free)
      ]

  free_path_free :
      (rounds : ℕ) (out_root path : FilePath)
      → (exists_at (free_path exists_at rounds out_root path) ≡ false)
        ⊎ IsLastResort (free_path exists_at rounds out_root path)
  unfolding free_path
  free_path_free rounds out_root [] = elim (Bool-cases (exists_at [])) [
    | inl there ↦ rw (there, free_path) (first_free_free rounds 1 out_root (lit "_") [])
    | inr free ↦ rw (free, free_path) (inl free)
  ]
  free_path_free rounds out_root (p ∷ ps) =
      let last = split_last p ps in
      let name = stem_and_suffix last.1 in
      elim (Bool-cases (exists_at (p ∷ ps))) [
        | inl there ↦ rw (there, free_path) (first_free_free rounds 1 last.0 name.0 name.1)
        | inr free ↦ rw (free, free_path) (inl free)
      ]

  pub output_free :
      (out_root : FilePath) (stream : Text) (prefixes : List FilePath)
      → (exists_at (unique_output_path exists_at out_root stream prefixes) ≡ false)
        ⊎ IsLastResort (unique_output_path exists_at out_root stream prefixes)
  unfolding unique_output_path
  output_free out_root stream prefixes =
      free_path_free 999999 out_root (out_root ++ stream_parts exists_at stream prefixes)

-- The files of the disk that an operation leaves, if it is no error.
abbrev pub HasFiles : List (FilePath × List ℕ) → Option Disk → Type 0
HasFiles files none = Unit
HasFiles files (some disk) = disk.files ≡ files

make_folders-HasFiles :
    (disk : Disk) (above path : FilePath) → HasFiles disk.files (make_folders disk above path)
make_folders-HasFiles disk above [] = refl
make_folders-HasFiles disk above (p ∷ ps) =
    let here = above ++ (p ∷ []) in
    elim (Bool-cases (is_some (content_at disk here))) [
      | inl in_the_way ↦ rw (in_the_way, make_folders) tt
      | inr free ↦
          rw (free, make_folders)
            (make_folders-HasFiles (record disk { folders = here ∷ disk.folders }) here ps)
    ]

pub create_dir_all-HasFiles :
    (disk : Disk) (path : FilePath) → HasFiles disk.files (create_dir_all disk path)
unfolding create_dir_all
create_dir_all-HasFiles disk path = make_folders-HasFiles disk [] path

make_parent-HasFiles : (disk : Disk) (path : FilePath) → HasFiles disk.files (make_parent disk path)
make_parent-HasFiles disk [] = refl
make_parent-HasFiles disk (p ∷ ps) = create_dir_all-HasFiles disk (split_last p ps).0

write_file-HasFiles :
    (disk : Disk) (out : FilePath) (bytes : List ℕ)
    → HasFiles ((out, bytes) ∷ disk.files) (write_file disk out bytes)
unfolding write_file
write_file-HasFiles disk out bytes = elim (Bool-cases (is_folder disk out)) [
  | inl folder ↦ rw folder tt
  | inr free ↦ rw free refl
]

pub write_stream-HasFiles :
    (disk : Disk) (out : FilePath) (bytes : List ℕ)
    → HasFiles ((out, bytes) ∷ disk.files) (write_stream disk out bytes)
write_stream-HasFiles disk out bytes = after (make_parent disk out) (make_parent-HasFiles disk out)
  where
    after :
        (o : Option Disk)
        → HasFiles disk.files o
        → HasFiles ((out, bytes) ∷ disk.files) (o and_then (λ d. write_file d out bytes))
    after none h = tt
    after (some d) h =
        subst (λ fs. HasFiles ((out, bytes) ∷ fs) (write_file d out bytes)) h
          (write_file-HasFiles d out bytes)

-- A file that is there stays as it is, but for one with a name of the last resort.
abbrev pub Keeps : Disk → Disk → Type 0
Keeps disk disk' =
    (path : FilePath) (bytes : List ℕ)
    → content_at disk path ≡ some bytes
    → (content_at disk' path ≡ some bytes) ⊎ IsLastResort path

pub content_at-files :
    (d disk : Disk) (path : FilePath)
    → d.files ≡ disk.files
    → content_at d path ≡ content_at disk path
unfolding content_at
content_at-files d disk path h = rw h refl

pub content_at-written :
    (disk d : Disk) (out : FilePath) (bytes : List ℕ)
    → d.files ≡ (out, bytes) ∷ disk.files
    → content_at d out ≡ some bytes
unfolding content_at
content_at-written disk d out bytes h = rw (h, parts_eq_refl out) refl

content_at-other :
    (disk d : Disk) (out path : FilePath) (bytes : List ℕ)
    → d.files ≡ (out, bytes) ∷ disk.files
    → parts_eq path out ≡ false
    → content_at d path ≡ content_at disk path
unfolding content_at
content_at-other disk d out path bytes h other = rw (h, other) refl

exists_on-content :
    (disk : Disk) (path : FilePath) (bytes : List ℕ)
    → content_at disk path ≡ some bytes
    → exists_on disk path ≡ true
unfolding exists_on
exists_on-content disk path bytes h = elim (Bool-cases (is_folder disk path)) [
  | inl folder ↦ rw folder refl
  | inr no_folder ↦ rw (no_folder, h) refl
]

pub written-Keeps :
    (disk d : Disk) (out : FilePath) (bytes : List ℕ)
    → (exists_on disk out ≡ false) ⊎ IsLastResort out
    → d.files ≡ (out, bytes) ∷ disk.files
    → Keeps disk d
written-Keeps disk d out bytes fresh h path content e = elim (Bool-cases (parts_eq path out)) [
  | inr other ↦ inl (content_at-other disk d out path bytes h other ∙ e)
  | inl same ↦
      let eq = parts_eq→eq path out same in
      elim fresh [
        | inr last ↦ inr (subst IsLastResort (sym eq) last)
        | inl free ↦
            let there = exists_on-content disk path content e in
            absurd (ground (arith, sym there ∙ ap (exists_on disk) eq ∙ free))
      ]
]

pub Keeps-trans : (a b c : Disk) → Keeps a b → Keeps b c → Keeps a c
Keeps-trans a b c h k path bytes e = elim (h path bytes e) [
  | inl kept ↦ k path bytes kept
  | inr last ↦ inr last
]
