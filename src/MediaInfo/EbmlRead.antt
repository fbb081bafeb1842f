-- ===== src/MediaInfo/EbmlRead.antt =====
-- What `read_ebml_elem` of media_info.rs makes of an element that is written.
use native.Mathlib.Nat.{mod-le}
use qq_analyzer.Base.{
  ℕ, zero, suc, ◌+◌, ◌-◌, ◌*◌, ◌%◌, ◌^◌, ◌≤◌, ◌<◌, List, [], ◌∷◌, ◌++◌, Option, some, true, false,
  ltb, leb, ◌==◌, if◌then◌else◌, length, drop, le→ltb, drop-drop, drop-length, take-length,
  length-append, inl, inr, Bool-cases, IsBytes, ◌≡◌, refl, sym, ap, ◌∙◌, arith,
}
use qq_analyzer.Msg3.Outcome.{Outcome, done, panicked}
use qq_analyzer.MediaInfo.Ebml.{
  EbmlElem, ebml_len, shift_in, known, id_at, size_at, elem_of, read_ebml_id, read_ebml_size,
  read_ebml_elem,
}

-- 256 to the power of a number of bytes.
abbrev pub room : ℕ → ℕ
room zero = 1
room (suc n) = 256 * room n

abbrev pub big_endian : List ℕ → ℕ
big_endian [] = 0
big_endian (b ∷ bytes) = b * room (length bytes) + big_endian bytes

room-up : (n m : ℕ) → n ≤ m → room n ≤ room m
room-up zero zero h = omega arith
room-up zero (suc m) h = omega (arith, room-up zero m (omega arith))
room-up (suc n) zero h = omega (arith, h)
room-up (suc n) (suc m) h = omega (arith, room-up n m (omega (arith, h)))

shift_in-big_endian :
    (n value : ℕ) (bytes : List ℕ)
    → value < room n
    → n + length bytes ≤ 8
    → IsBytes bytes
    → shift_in value bytes ≡ value * room (length bytes) + big_endian bytes
unfolding shift_in
shift_in-big_endian n value [] small short bs = omega arith
shift_in-big_endian n value (b ∷ bytes) small short bs =
    let fits : value * 256 % 2 ^ 64 ≡ value * 256 = omega (arith, room-up n 7) in
    let next =
      shift_in-big_endian (suc n) (value * 256 + b) bytes (omega arith) (omega arith) bs.1 in
    rw (fits, next) (omega arith)

-- The bytes of a number, the first of which counts them.
abbrev pub IsVint : List ℕ → Type 0
IsVint [] = ⊥
IsVint (first ∷ rest) = IsBytes (first ∷ rest) × (ebml_len first ≡ suc (length rest))

-- The number without the bits that count its bytes.
abbrev pub size_of : List ℕ → ℕ
size_of [] = 0
size_of (first ∷ rest) = first % 2 ^ (7 - length rest) * room (length rest) + big_endian rest

id_at-vint :
    (first : ℕ) (rest more : List ℕ)
    → IsVint (first ∷ rest)
    → length rest < 4
    → id_at (first ∷ rest ++ more) ≡ some (big_endian (first ∷ rest), suc (length rest))
id_at-vint first rest more h short =
    let small : ltb 4 (suc (length rest)) ≡ false = le→ltb 4 (suc (length rest)) short in
    let there : ltb (suc (length (rest ++ more))) (suc (length rest)) ≡ false =
      le→ltb (suc (length (rest ++ more))) (suc (length rest))
        (omega (arith, length-append rest more)) in
    let value = shift_in-big_endian 0 0 (first ∷ rest) (omega arith) (omega arith) h.0 in
    rw (h.1, small, there, take-length rest more, value)
      (ap (λ n. some (n, suc (length rest))) (omega arith))

size_at-vint :
    (first : ℕ) (rest more : List ℕ)
    → IsVint (first ∷ rest)
    → length rest < 8
    → size_at (first ∷ rest ++ more) ≡ (
        if suc (length rest) == 8
        then panicked
        else done (some (known (size_of (first ∷ rest)) (suc (length rest)), suc (length rest))))
size_at-vint first rest more h short =
    let len = length rest in
    let small : ltb 8 (suc len) ≡ false = le→ltb 8 (suc len) short in
    let there : ltb (suc (length (rest ++ more))) (suc len) ≡ false =
      le→ltb (suc (length (rest ++ more))) (suc len) (omega (arith, length-append rest more)) in
    elim (Bool-cases (suc len == 8)) [
      | inl last ↦
          let full : leb 8 (suc len) ≡ true = ground arith in
          rw (h.1, small, there, full, last) refl
      | inr inner ↦
          let more_room : leb 8 (suc len) ≡ false = ground arith in
          let bits : 8 - suc len ≡ 7 - len = omega arith in
          let tail : suc len - 1 ≡ len = omega arith in
          let value =
            shift_in-big_endian 1 (first % 2 ^ (7 - len)) rest
              (omega (arith, mod-le first (2 ^ (7 - len)), h.0.0)) (omega (arith, short)) h.0.1 in
          rw (h.1, small, there, more_room, inner, bits, tail, take-length rest more, value) refl
    ]

-- The outcome for an element of the given number of size bytes.
abbrev pub elem_or_panic : ℕ → ℕ → ℕ → ℕ → Outcome (Option EbmlElem)
elem_or_panic size_len id start end =
    if size_len == 8 then panicked else done (some (record { id = id; start = start; end = end }))

elem_of-fits :
    (total pos id id_len size size_len : ℕ)
    → pos + id_len + size_len + size ≤ total
    → size < 2 ^ (7 * size_len) - 1
    → elem_of total pos total id id_len
        (if size_len == 8 then panicked else done (some (known size size_len, size_len)))
      ≡ elem_or_panic size_len id (pos + id_len + size_len) (pos + id_len + size_len + size)
elem_of-fits total pos id id_len size size_len fits room_left = elim (Bool-cases (size_len == 8)) [
  | inl last ↦ rw (last) refl
  | inr inner ↦
      let is_known : (size == 2 ^ (7 * size_len) - 1) ≡ false = ground arith in
      rw (inner, is_known, le→ltb total (pos + id_len + size_len + size) fits) refl
]

-- An EBML element that is written somewhere, with an identifier of at most 4 bytes and a size of at
-- most 8 that is the length of its content and not all ones, is read with its identifier and its
-- bounds, unless the size is written in 8 bytes: then the reader panics.
pub read_ebml_elem-put_elem :
    (before id size content rest : List ℕ)
    → IsVint id
    → length id ≤ 4
    → IsVint size
    → length size ≤ 8
    → size_of size ≡ length content
    → length content < 2 ^ (7 * length size) - 1
    → let bytes = before ++ (id ++ (size ++ (content ++ rest))) in
      let start = length before + length id + length size in
      read_ebml_elem bytes (length before) (length bytes)
      ≡ elem_or_panic (length size) (big_endian id) start (start + length content)
unfolding read_ebml_elem read_ebml_id read_ebml_size
read_ebml_elem-put_elem before [] size content rest hid short hsize sshort e room_left =
    elim hid [ ]
read_ebml_elem-put_elem before (i ∷ is) [] content rest hid short hsize sshort e room_left =
    elim hsize [ ]
read_ebml_elem-put_elem before (i ∷ is) (s ∷ ss) content rest hid short hsize sshort e room_left =
    let id = i ∷ is in
    let behind = s ∷ ss ++ (content ++ rest) in
    let bytes = before ++ (id ++ behind) in
    let total : length before + length id + suc (length ss) + length content ≤ length bytes =
      omega (
        arith,
        length-append before (id ++ behind),
        length-append is behind,
        length-append ss (content ++ rest),
        length-append content rest,
      ) in
    let at_id = drop-length before (id ++ behind) in
    let at_size : drop (length before + suc (length is)) (before ++ (id ++ behind)) ≡ behind =
      sym (drop-drop (length before) (length id) (before ++ (id ++ behind)))
      ∙ ap (drop (length id)) at_id
      ∙ drop-length id behind in
    rw
      (
        at_id,
        id_at-vint i is behind hid (omega (arith, short)),
        at_size,
        size_at-vint s ss (content ++ rest) hsize (omega (arith, sshort)),
        e,
      )
      (elem_of-fits (length bytes) (length before) (big_endian id) (length id) (length content)
        (suc (length ss)) total room_left)
