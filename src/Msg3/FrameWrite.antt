-- ===== src/Msg3/FrameWrite.antt =====
-- `td_record_len` of msg3_parser.rs on TD records that were written.
use qq_analyzer.Base.{
  ℕ, suc, ◌+◌, ◌*◌, ◌/◌, ◌%◌, ◌≤◌, List, [], ◌∷◌, ◌++◌, some, length, drop, le32, put16, put32, All,
  drop-drop, length-append, drop-length, ◌≡◌, sym, ap, ◌∙◌, arith,
}
use qq_analyzer.TxData.Layout.{RawField, Fits, put_field, put_fields}
use qq_analyzer.TxData.Record.{put_record}
use qq_analyzer.Msg3.Frames.{td_marker, td_field_len, td_fields_end, td_len_of, td_record_len}
use qq_analyzer.Msg3.FrameLayout.{put_fields-append, length-put_field}

abbrev field_width : RawField → ℕ
field_width f = 7 + length f.raw_name + length f.value

value_part :
    (f : RawField) (rest : List ℕ)
    → Fits f
    → (le32 (put32 (length f.value) (f.value ++ rest)) ≡ length f.value)
      × (length f.value ≤ length (f.value ++ rest))
value_part f rest fits = (omega (arith, fits.value_fits), omega (arith, length-append f.value rest))

behind_name : (xs ys : List ℕ) → drop (length xs + 4) (xs ++ ys) ≡ drop 4 ys
behind_name xs ys = sym (drop-drop (length xs) 4 (xs ++ ys)) ∙ ap (drop 4) (drop-length xs ys)

field_len-put_field :
    (f : RawField) (rest : List ℕ) → Fits f → td_field_len (put_field f rest) ≡ some (field_width f)
unfolding td_field_len
field_len-put_field f rest fits = ground (
  arith,
  fits.name_fits,
  value_part f rest fits,
  length-append f.raw_name (put32 (length f.value) (f.value ++ rest)),
  length-append f.value rest,
  drop-length f.raw_name (put32 (length f.value) (f.value ++ rest)),
  behind_name f.raw_name (put32 (length f.value) (f.value ++ rest)),
)

drop-put_field : (f : RawField) (rest : List ℕ) → drop (field_width f) (put_field f rest) ≡ rest
drop-put_field f rest =
    let front : List ℕ = put_field f [] in
    let width : field_width f ≡ length front = omega (arith, length-put_field f []) in
    rw (width, put_fields-append (f ∷ []) rest) (drop-length front rest)

fields_end_some :
    (k : ℕ) (rest : List ℕ) (pos w : ℕ)
    → td_field_len rest ≡ some w
    → td_fields_end (suc k) rest pos ≡ td_fields_end k (drop w rest) (pos + w)
unfolding td_fields_end
fields_end_some k rest pos w e = rw (e, td_fields_end)

fields_end-put_fields :
    (fs : List RawField) (rest : List ℕ) (pos : ℕ)
    → All Fits fs
    → td_fields_end (length fs) (put_fields fs rest) pos ≡ some (pos + length (put_fields fs []))
fields_end-put_fields [] rest pos h = unfold td_fields_end in ap some (omega arith)
fields_end-put_fields (f ∷ fs) rest pos h =
    fields_end_some (length fs) (put_field f (put_fields fs rest)) pos (field_width f)
      (field_len-put_field f (put_fields fs rest) h.0)
    ∙ ap (λ r. td_fields_end (length fs) r (pos + field_width f))
        (drop-put_field f (put_fields fs rest))
    ∙ fields_end-put_fields fs rest (pos + field_width f) h.1
    ∙ ap some (omega (arith, length-put_field f (put_fields fs [])))

len_of-put_record :
    (fs : List RawField) (tail : List ℕ)
    → length fs ≤ 200
    → All Fits fs
    → td_len_of (td_marker ++ put16 (length fs) (put_fields fs tail))
      ≡ some (4 + length (put_record fs))
len_of-put_record [] tail h fits = ground arith
len_of-put_record (f ∷ fs) tail h fits =
    let count : length (f ∷ fs) % 256 + 256 * (length (f ∷ fs) / 256 % 256) ≡ length (f ∷ fs) =
      omega arith in
    rw count (ground (arith, fields_end-put_fields (f ∷ fs) tail 6 fits))

-- A TD record of at most 200 fields has the length of its bytes, wherever it stands.
pub td_record_len-put_record :
    (before : List ℕ) (fs : List RawField) (tail : List ℕ)
    → length fs ≤ 200
    → All Fits fs
    → td_record_len
        (before ++ (td_marker ++ put16 (length fs) (put_fields fs tail)))
        (length before)
      ≡ some (4 + length (put_record fs))
unfolding td_record_len
td_record_len-put_record before fs tail h fits =
    ap td_len_of (drop-length before (td_marker ++ put16 (length fs) (put_fields fs tail)))
    ∙ len_of-put_record fs tail h fits
