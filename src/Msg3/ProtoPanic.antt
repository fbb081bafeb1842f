-- ===== src/Msg3/ProtoPanic.antt =====
-- `collect_proto_strings` of msg3_parser.rs on lengths near 2 ^ 64.
use qq_analyzer.Base.{
  ℕ, zero, suc, ◌+◌, ◌-◌, ◌*◌, ◌/◌, ◌%◌, ◌^◌, ◌<◌, ◌≤◌, List, [], ◌∷◌, ◌++◌, none, some, false,
  length, length-append, le→ltb, ◌≡◌, refl, arith,
}
use qq_analyzer.Text.{Text}
use qq_analyzer.Msg3.Outcome.{Outcome, panicked, fault, usize_limit}
use qq_analyzer.Msg3.Varint.{read_varint, put_varint, read_varint-put_varint}
use qq_analyzer.Msg3.Proto.{looks_like_proto, proto_loop, skip_field, skip_value}
use qq_analyzer.Msg3.ProtoStrings.{
  strings_at, strings_loop, strings_round, take_keyed, take_sized, collect_proto_strings,
}

-- A field with the wire type of bytes, its length and what follows.
abbrev pub sized_field : ℕ → ℕ → List ℕ → List ℕ
sized_field field n rest = put_varint 9 (field * 8 + 2) ++ (put_varint 9 n ++ rest)

put_varint-pos : (k v : ℕ) → 1 ≤ length (put_varint k v)
unfolding put_varint
put_varint-pos zero v = omega arith
put_varint-pos (suc k) v = ground arith

put_varint-length : (k v : ℕ) → length (put_varint k v) ≤ k + 1
unfolding put_varint
put_varint-length zero v = omega arith
put_varint-length (suc k) v = ground (arith, put_varint-length k (v / 128))

module _ (nested : List ℕ → List Text → Outcome (List Text)) (total : ℕ) where
  -- The wire type of the key is 2 and the key is not zero.
  after_key :
      (field : ℕ) (rest : List ℕ) (out : List Text)
      → take_keyed nested total (some (field * 8 + 2), rest) out
        ≡ take_sized nested total (read_varint rest) out
  after_key field rest out =
      let wire : (field * 8 + 2) % 8 ≡ 2 = omega arith in rw wire (ground arith)

  round_fault :
      (field n : ℕ) (rest : List ℕ) (out : List Text)
      → field * 8 + 2 < 2 ^ 64
      → n < 2 ^ 64
      → usize_limit ≤ total - length rest + n
      → strings_round nested total (sized_field field n rest) out ≡ fault
  unfolding strings_round
  round_fault field n rest out hk hn over =
      let key = read_varint-put_varint (field * 8 + 2) (put_varint 9 n ++ rest) hk in
      let len = read_varint-put_varint n rest hn in
      rw (key, after_key field (put_varint 9 n ++ rest) out, len) (ground arith)

cons_of : (xs : List ℕ) → 1 ≤ length xs → (b : ℕ) × (bs : List ℕ) × (xs ≡ b ∷ bs)
cons_of [] h = absurd (omega arith)
cons_of (b ∷ bs) h = (b, bs, refl)

loop_fault :
    (nested : List ℕ → List Text → Outcome (List Text)) (total left : ℕ) (xs : List ℕ)
    (out : List Text)
    → 1 ≤ length xs
    → strings_round nested total xs out ≡ fault
    → strings_loop nested total (suc left) xs out ≡ panicked
loop_fault nested total left [] out h e = absurd (omega arith)
loop_fault nested total left (b ∷ bs) out h e = unfold strings_loop in rw e

pub length-sized_field :
    (field n : ℕ) (rest : List ℕ)
    → length (sized_field field n rest)
      ≡ length (put_varint 9 (field * 8 + 2)) + length (put_varint 9 n) + length rest
length-sized_field field n rest = omega (
  arith,
  length-append (put_varint 9 (field * 8 + 2)) (put_varint 9 n ++ rest),
  length-append (put_varint 9 n) rest,
)

loop_refuses :
    (left seen : ℕ) (xs : List ℕ)
    → 1 ≤ length xs
    → skip_field xs ≡ none
    → proto_loop left seen xs ≡ false
loop_refuses left seen [] h e = absurd (omega arith)
loop_refuses zero seen (b ∷ bs) h e = unfold proto_loop in refl
loop_refuses (suc left) seen (b ∷ bs) h e = unfold proto_loop in rw (e, proto_loop)

skip_too_long :
    (field n : ℕ) (rest : List ℕ)
    → field * 8 + 2 < 2 ^ 64
    → n < 2 ^ 64
    → length rest < n
    → skip_field (sized_field field n rest) ≡ none
unfolding skip_field skip_value
skip_too_long field n rest hk hn h =
    let key = read_varint-put_varint (field * 8 + 2) (put_varint 9 n ++ rest) hk in
    let len = read_varint-put_varint n rest hn in
    let wire : (field * 8 + 2) % 8 ≡ 2 = omega arith in rw (key, wire, len) (ground arith)

-- A field of bytes whose length runs past 2 ^ 64 from where its bytes begin is refused by
-- `looks_like_proto`, and makes `collect_proto_strings` panic.
pub collect_proto_strings-panics :
    (field n : ℕ) (rest : List ℕ)
    → 1 ≤ field
    → field * 8 + 2 < 2 ^ 64
    → n < 2 ^ 64
    → 2 ^ 64 ≤ n + (length (put_varint 9 (field * 8 + 2)) + length (put_varint 9 n))
    → length rest < 2 ^ 63
    → (looks_like_proto (sized_field field n rest) ≡ false)
      × (collect_proto_strings (sized_field field n rest) 0 [] ≡ panicked)
collect_proto_strings-panics field n rest h1 hk hn over small =
    let size = length-sized_field field n rest in
    let key_pos = put_varint-pos 9 (field * 8 + 2) in
    let len_pos = put_varint-pos 9 n in
    let refused = loop_refuses 12 0 (sized_field field n rest) (omega arith) (
      skip_too_long field n rest hk hn
        (omega (arith, put_varint-length 9 n, put_varint-length 9 (field * 8 + 2)))) in
    (
      unfold looks_like_proto in ground arith,
      unfold collect_proto_strings strings_at in
          rw (le→ltb (length (sized_field field n rest)) 2 (omega arith)) (
            loop_fault (strings_at 2) (length (sized_field field n rest)) 79
              (sized_field field n rest) [] (omega arith)
              (round_fault (strings_at 2) (length (sized_field field n rest)) field n rest [] hk hn
                (omega arith))),
    )
