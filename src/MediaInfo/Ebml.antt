-- ===== src/MediaInfo/Ebml.antt =====
-- The elements of Matroska files: `read_ebml_id`, `read_ebml_size` and `read_ebml_elem` of media_info.rs.
use qq_analyzer.Base.{
  ℕ, ◌+◌, ◌-◌, ◌*◌, ◌%◌, ◌^◌, List, [], ◌∷◌, Option, none, some, ◌||◌, ltb, leb, ◌==◌,
  if◌then◌else◌, length, take, drop,
}
use qq_analyzer.Msg3.Outcome.{Outcome, done, panicked}

pub record EbmlElem : Type 0 where
  pub id : ℕ
  pub start : ℕ
  pub end : ℕ

-- `first.leading_zeros() + 1`: the bytes of a number are counted by the first one.
abbrev pub ebml_len : ℕ → ℕ
ebml_len first =
    if leb 128 first
    then 1
    else if leb 64 first
    then 2
    else if leb 32 first
    then 3
    else if leb 16 first
    then 4
    else if leb 8 first
    then 5
    else if leb 4 first
    then 6
    else if leb 2 first
    then 7
    else if leb 1 first
    then 8
    else 9

-- `value << 8` drops what is shifted out of a u64.
unfoldable pub shift_in : ℕ → List ℕ → ℕ
shift_in value [] = value
shift_in value (b ∷ bytes) = shift_in (value * 256 % 2 ^ 64 + b) bytes

abbrev pub id_at : List ℕ → Option (ℕ × ℕ)
id_at [] = none
id_at (first ∷ rest) =
    let len = ebml_len first in
    if ltb 4 len || ltb (length (first ∷ rest)) len
    then none
    else some (shift_in 0 (take len (first ∷ rest)), len)

unfoldable pub read_ebml_id : List ℕ → ℕ → Option (ℕ × ℕ)
read_ebml_id bytes pos = id_at (drop pos bytes)

abbrev pub known : ℕ → ℕ → Option ℕ
known value len = if value == 2 ^ (7 * len) - 1 then none else some value

-- `0xffu8 >> len` overflows for a length of 8, which panics where the build checks it.
abbrev pub size_at : List ℕ → Outcome (Option (Option ℕ × ℕ))
size_at [] = done none
size_at (first ∷ rest) =
    let len = ebml_len first in
    if ltb 8 len || ltb (length (first ∷ rest)) len
    then done none
    else if leb 8 len
    then panicked
    else done (some (known (shift_in (first % 2 ^ (8 - len)) (take (len - 1) rest)) len, len))

unfoldable pub read_ebml_size : List ℕ → ℕ → Outcome (Option (Option ℕ × ℕ))
read_ebml_size bytes pos = size_at (drop pos bytes)

-- The sum of `start` and the size is checked in the source: where it overflows, it is also past the
-- limit.
abbrev pub elem_of : ℕ → ℕ → ℕ → ℕ → ℕ → Outcome (Option (Option ℕ × ℕ)) → Outcome (Option EbmlElem)
elem_of total pos limit id id_len panicked = panicked
elem_of total pos limit id id_len (done none) = done none
elem_of total pos limit id id_len (done (some (none, size_len))) = done none
elem_of total pos limit id id_len (done (some (some size, size_len))) =
    let start = pos + id_len + size_len in
    if ltb limit (start + size) || ltb total (start + size)
    then done none
    else done (some (record { id = id; start = start; end = start + size }))

abbrev pub elem_behind : List ℕ → ℕ → ℕ → Option (ℕ × ℕ) → Outcome (Option EbmlElem)
elem_behind bytes pos limit none = done none
elem_behind bytes pos limit (some (id, id_len)) =
    elem_of (length bytes) pos limit id id_len (read_ebml_size bytes (pos + id_len))

unfoldable pub read_ebml_elem : List ℕ → ℕ → ℕ → Outcome (Option EbmlElem)
read_ebml_elem bytes pos limit = elem_behind bytes pos limit (read_ebml_id bytes pos)
