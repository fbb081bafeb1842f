-- ===== src/Cfb/Disk.antt =====
-- The part of the file system that `extract_cfb_with_limit` of cfb.rs uses. A path is the list of its
-- parts. Errors that the state of the disk does not show (rights, space) do not happen.
use qq_analyzer.Base.{
  ℕ, List, [], ◌∷◌, ◌++◌, Option, none, some, Bool, true, false, ◌&&◌, ◌||◌, if◌then◌else◌, any,
  ◌≡◌, refl, ap₂, arith,
}
use qq_analyzer.Text.{Text, text_eq, text_eq_refl, text_eq→eq}
use qq_analyzer.Cfb.Paths.{parts_eq}

abbrev pub FilePath : Type 0
FilePath = List Text

-- The last write to a path stands first.
pub record Disk : Type 0 where
  pub folders : List FilePath
  pub files : List (FilePath × List ℕ)

abbrev pub is_folder : Disk → FilePath → Bool
is_folder disk path = any (parts_eq path) disk.folders

abbrev find_file : FilePath → List (FilePath × List ℕ) → Option (List ℕ)
find_file path [] = none
find_file path (f ∷ fs) =
    let more = find_file path fs in if parts_eq path f.0 then some f.1 else more

-- `fs::read`.
unfoldable pub content_at : Disk → FilePath → Option (List ℕ)
content_at disk path = find_file path disk.files

abbrev pub is_some {ℓ} : {A : Type ℓ} → Option A → Bool
is_some none = false
is_some (some a) = true

-- `Path::exists`.
unfoldable pub exists_on : Disk → FilePath → Bool
exists_on disk path = is_folder disk path || is_some (content_at disk path)

-- Every folder on the way, the path included; a file in the way is an error.
abbrev pub make_folders : Disk → FilePath → FilePath → Option Disk
make_folders disk above [] = some disk
make_folders disk above (p ∷ ps) =
    let here = above ++ (p ∷ []) in
    let made = make_folders (record disk { folders = here ∷ disk.folders }) here ps in
    if is_some (content_at disk here) then none else made

-- `fs::create_dir_all`.
unfoldable pub create_dir_all : Disk → FilePath → Option Disk
create_dir_all disk path = make_folders disk [] path

-- `fs::write`, where the folder above is there.
unfoldable pub write_file : Disk → FilePath → List ℕ → Option Disk
write_file disk path bytes =
    if is_folder disk path then none else some (record disk { files = (path, bytes) ∷ disk.files })

abbrev is_below : FilePath → FilePath → Bool
is_below [] path = true
is_below (p ∷ ps) [] = false
is_below (p ∷ ps) (q ∷ qs) = text_eq p q && is_below ps qs

abbrev folders_outside : FilePath → List FilePath → List FilePath
folders_outside root [] = []
folders_outside root (f ∷ fs) =
    let more = folders_outside root fs in if is_below root f then more else f ∷ more

abbrev files_outside : FilePath → List (FilePath × List ℕ) → List (FilePath × List ℕ)
files_outside root [] = []
files_outside root (f ∷ fs) =
    let more = files_outside root fs in if is_below root f.0 then more else f ∷ more

-- `fs::remove_dir_all`: the folder and everything below it; a file is an error.
unfoldable pub remove_dir_all : Disk → FilePath → Option Disk
remove_dir_all disk root =
    if is_folder disk root
    then some (record {
      folders = folders_outside root disk.folders;
      files = files_outside root disk.files;
    })
    else none

pub parts_eq_refl : (path : FilePath) → parts_eq path path ≡ true
parts_eq_refl [] = refl
parts_eq_refl (p ∷ ps) = ground (arith, text_eq_refl p, parts_eq_refl ps)

pub parts_eq→eq : (p q : FilePath) → parts_eq p q ≡ true → p ≡ q
parts_eq→eq [] [] h = refl
parts_eq→eq [] (y ∷ ys) h = absurd (ground arith)
parts_eq→eq (x ∷ xs) [] h = absurd (ground arith)
parts_eq→eq (x ∷ xs) (y ∷ ys) h =
    let one : text_eq x y ≡ true = ground arith in
    let more : parts_eq xs ys ≡ true = ground arith in
    ap₂ ◌∷◌ (text_eq→eq x y one) (parts_eq→eq xs ys more)
