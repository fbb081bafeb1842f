-- ===== src/Text/Utf8.antt =====
-- `std::str::from_utf8`: strict decoding, with no overlong form, surrogate or value past U+10FFFF.
use qq_analyzer.Base.{
  ℕ, zero, suc, ◌+◌, ◌-◌, ◌*◌, ◌<◌, List, [], ◌∷◌, Option, none, some, Bool, false, not, ◌||◌, ltb,
  within, ◌==◌, ◌&&◌, if◌then◌else◌, byte_at, All, ◌≡◌, refl, arith,
}

is_cont : ℕ → ℕ → ℕ → List ℕ → ℕ → Option (ℕ × ℕ)
is_cont lo hi c rest extra = if within lo hi (byte_at rest 0) then some (c, extra) else none

two : ℕ → List ℕ → Option (ℕ × ℕ)
unfolding is_cont
two a rest = is_cont 0x80 0xbf ((a - 0xc0) * 64 + (byte_at rest 0 - 0x80)) rest 1

three : ℕ → ℕ → ℕ → List ℕ → Option (ℕ × ℕ)
three lo hi a rest =
    if within lo hi (byte_at rest 0) && within 0x80 0xbf (byte_at rest 1)
    then some ((a - 0xe0) * 4096 + (byte_at rest 0 - 0x80) * 64 + (byte_at rest 1 - 0x80), 2)
    else none

four : ℕ → ℕ → ℕ → List ℕ → Option (ℕ × ℕ)
four lo hi a rest =
    if within lo hi (byte_at rest 0)
      && within 0x80 0xbf (byte_at rest 1)
      && within 0x80 0xbf (byte_at rest 2)
    then some (
      (a - 0xf0) * 262144
          + (byte_at rest 0 - 0x80) * 4096
          + (byte_at rest 1 - 0x80) * 64
          + (byte_at rest 2 - 0x80),
      3,
    )
    else none

-- One code point behind the lead byte `a`, and how many continuation bytes it takes.
next_char : ℕ → List ℕ → Option (ℕ × ℕ)
unfolding two three four
next_char a rest =
    if ltb a 0x80
    then some (a, 0)
    else if within 0xc2 0xdf a
    then two a rest
    else if a == 0xe0
    then three 0xa0 0xbf a rest
    else if within 0xe1 0xec a
    then three 0x80 0xbf a rest
    else if a == 0xed
    then three 0x80 0x9f a rest
    else if within 0xee 0xef a
    then three 0x80 0xbf a rest
    else if a == 0xf0
    then four 0x90 0xbf a rest
    else if within 0xf1 0xf3 a
    then four 0x80 0xbf a rest
    else if a == 0xf4
    then four 0x80 0x8f a rest
    else none

abbrev prepend : ℕ → Option (List ℕ) → Option (List ℕ)
prepend c none = none
prepend c (some t) = some (c ∷ t)

-- `skip` counts the continuation bytes of the code point just read.
decode_from : ℕ → List ℕ → Option (List ℕ)
unfolding next_char
decode_from skip [] = some []
decode_from (suc skip) (b ∷ rest) = decode_from skip rest
decode_from zero (b ∷ rest) = elim (next_char b rest) [
  | none ↦ none
  | some p ↦ prepend p.0 (decode_from p.1 rest)
]

unfoldable pub from_utf8 : List ℕ → Option (List ℕ)
unfolding decode_from
from_utf8 bytes = decode_from 0 bytes

-- `String::from_utf8_lossy`: U+FFFD for each maximal part of a broken sequence. The continuation
-- bytes that such a part takes behind its lead byte `a`:
second_ok : ℕ → ℕ → Bool
second_ok a b =
    if a == 0xe0
    then within 0xa0 0xbf b
    else if within 0xe1 0xec a || within 0xee 0xef a
    then within 0x80 0xbf b
    else if a == 0xed
    then within 0x80 0x9f b
    else if a == 0xf0
    then within 0x90 0xbf b
    else if within 0xf1 0xf3 a
    then within 0x80 0xbf b
    else if a == 0xf4
    then within 0x80 0x8f b
    else false

broken_part : ℕ → List ℕ → ℕ
unfolding second_ok
broken_part a [] = 0
broken_part a (b ∷ rest) =
    if not (second_ok a b)
    then 0
    else if within 0xf0 0xf4 a && within 0x80 0xbf (byte_at rest 0)
    then 2
    else 1

decode_lossy : ℕ → List ℕ → List ℕ
unfolding next_char broken_part
decode_lossy skip [] = []
decode_lossy (suc skip) (b ∷ rest) = decode_lossy skip rest
decode_lossy zero (b ∷ rest) = elim (next_char b rest) [
  | none ↦ 0xfffd ∷ decode_lossy (broken_part b rest) rest
  | some p ↦ p.0 ∷ decode_lossy p.1 rest
]

unfoldable pub from_utf8_lossy : List ℕ → List ℕ
unfolding decode_lossy
from_utf8_lossy bytes = decode_lossy 0 bytes

decode_from-ascii : (bytes : List ℕ) → All (λ b. b < 128) bytes → decode_from 0 bytes ≡ some bytes
unfolding decode_from
decode_from-ascii [] h = refl
decode_from-ascii (b ∷ rest) h = ground (arith, decode_from-ascii rest h.1)

-- ASCII bytes are their own text.
pub from_utf8-ascii : (bytes : List ℕ) → All (λ b. b < 128) bytes → from_utf8 bytes ≡ some bytes
unfolding from_utf8
from_utf8-ascii = decode_from-ascii
