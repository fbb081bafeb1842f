-- ===== src/Cfb/OutputPath.antt =====
-- `unique_output_path` of cfb.rs: the numbered names it tries.
use qq_analyzer.Base.{
  ℕ, zero, suc, ◌+◌, ◌/◌, ◌%◌, ◌≤◌, ◌<◌, List, [], ◌∷◌, ◌++◌, Option, none, some, Bool, false, ltb,
  ◌==◌, length, length-append, All, All-append, Bool-cases, ◌≡◌, ◌⊎◌, inl, inr, refl, arith,
}
use qq_analyzer.Text.{Text, lit, text_eq, decimal, decimal_digits}
use qq_analyzer.Cfb.Paths.{split_dot, join_dot, stem_split, stem_and_suffix, numbered, first_free}
use qq_analyzer.Cfb.SafeParts.{IsClean}

digit-IsClean : (d : ℕ) → d < 10 → IsClean (48 + d)
digit-IsClean d h = ground arith

decimal_digits-IsClean :
    (fuel n : ℕ) (out : Text) → All IsClean out → All IsClean (decimal_digits fuel n out)
decimal_digits-IsClean zero n out h = h
decimal_digits-IsClean (suc fuel) n out h = elim (Bool-cases (ltb n 10)) [
  | inl last ↦ rw last (digit-IsClean n (ground arith), h)
  | inr more ↦ rw more (
      decimal_digits-IsClean fuel (n / 10) ((48 + n % 10) ∷ out)
        (digit-IsClean (n % 10) (omega arith), h))
]

decimal-IsClean : (n : ℕ) → All IsClean (decimal n)
unfolding decimal
decimal-IsClean n = decimal_digits-IsClean 20 n [] tt

abbrev pub AreClean : Text × Text → Type 0
AreClean p = All IsClean p.0 × All IsClean p.1

abbrev AreCleanIf : Option (Text × Text) → Type 0
AreCleanIf none = Unit
AreCleanIf (some p) = AreClean p

join_dot-AreClean :
    (c : ℕ) (cs : Text) (split : Option (Text × Text))
    → IsClean c
    → All IsClean cs
    → AreCleanIf split
    → AreCleanIf (join_dot c cs split)
join_dot-AreClean c cs none h hs k = elim (Bool-cases (c == b'.')) [
  | inl dot ↦ rw dot (tt, hs)
  | inr other ↦ rw other tt
]
join_dot-AreClean c cs (some p) h hs k = ((h, k.0), k.1)

split_dot-AreClean : (name : Text) → All IsClean name → AreCleanIf (split_dot name)
split_dot-AreClean [] h = tt
split_dot-AreClean (c ∷ cs) h =
    join_dot-AreClean c cs (split_dot cs) h.0 h.1 (split_dot-AreClean cs h.1)

stem_split-AreClean :
    (name : Text) (split : Option (Text × Text))
    → All IsClean name
    → AreCleanIf split
    → AreClean (stem_split name split)
stem_split-AreClean name none h k = (h, tt)
stem_split-AreClean name (some ([], after)) h k = (h, tt)
stem_split-AreClean name (some (c ∷ before, after)) h k = k

pub stem_and_suffix-AreClean : (name : Text) → All IsClean name → AreClean (stem_and_suffix name)
stem_and_suffix-AreClean name h = elim (Bool-cases (text_eq name (lit ".."))) [
  | inl dots ↦ rw dots ((refl, tt), tt)
  | inr other ↦ rw other (stem_split-AreClean name (split_dot name) h (split_dot-AreClean name h))
]

numbered-IsClean :
    (stem suffix : Text) (i : ℕ)
    → All IsClean stem
    → All IsClean suffix
    → All IsClean (numbered stem suffix i)
numbered-IsClean stem [] i h k =
    All-append IsClean (stem ++ lit "__") (decimal i)
      (All-append IsClean stem (lit "__") h (refl, (refl, tt))) (decimal-IsClean i)
numbered-IsClean stem (c ∷ cs) i h k =
    All-append IsClean (stem ++ lit "__" ++ decimal i ++ lit ".") (c ∷ cs)
      (All-append IsClean (stem ++ lit "__" ++ decimal i) (lit ".")
        (All-append IsClean (stem ++ lit "__") (decimal i)
          (All-append IsClean stem (lit "__") h (refl, (refl, tt))) (decimal-IsClean i))
        (refl, tt))
      k

-- A path right below `parent`, by a clean name; it is not there yet, or it is the last resort.
pub record IsBelow (exists_at : List Text → Bool) (parent : List Text) (stem : Text)
    (path : List Text) : Type 0 where
  pub name : Text
  pub below : path ≡ parent ++ (name ∷ [])
  pub clean : All IsClean name
  pub nonempty : 1 ≤ length name
  pub free : (exists_at path ≡ false) ⊎ (name ≡ stem ++ lit "__overflow")

numbered-nonempty : (stem suffix : Text) (i : ℕ) → 1 ≤ length (numbered stem suffix i)
numbered-nonempty stem [] i =
    omega (arith, length-append (stem ++ lit "__") (decimal i), length-append stem (lit "__"))
numbered-nonempty stem (c ∷ cs) i =
    omega (arith, length-append (stem ++ lit "__" ++ decimal i ++ lit ".") (c ∷ cs))

overflow-IsClean : All IsClean (lit "__overflow")
overflow-IsClean =
    (refl, (refl, (refl, (refl, (refl, (refl, (refl, (refl, (refl, (refl, tt))))))))))

module _ (exists_at : List Text → Bool) where
  pub first_free-IsBelow :
      (rounds i : ℕ) (parent : List Text) (stem suffix : Text)
      → All IsClean stem
      → All IsClean suffix
      → IsBelow exists_at parent stem (first_free exists_at rounds i parent stem suffix)
  first_free-IsBelow zero i parent stem suffix h k = record {
    name = stem ++ lit "__overflow";
    below = refl;
    clean = All-append IsClean stem (lit "__overflow") h overflow-IsClean;
    nonempty = omega (arith, length-append stem (lit "__overflow"));
    free = inr refl;
  }
  first_free-IsBelow (suc rounds) i parent stem suffix h k =
      elim (Bool-cases (exists_at (parent ++ (numbered stem suffix i ∷ [])))) [
        | inl taken ↦
            rw (taken, first_free) (first_free-IsBelow rounds (suc i) parent stem suffix h k)
        | inr free ↦
            rw (free, first_free)
              (record {
                name = numbered stem suffix i;
                below = refl;
                clean = numbered-IsClean stem suffix i h k;
                nonempty = numbered-nonempty stem suffix i;
                free = inl free;
              })
      ]
