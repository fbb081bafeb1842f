-- ===== src/Cfb/WalkFuel.antt =====
-- `walk` of cfb.rs: the levels of its recursion.
use qq_analyzer.Base.{
  ℕ, zero, suc, ◌+◌, ◌≤◌, ◌<◌, List, [], ◌∷◌, ◌++◌, some, true, false, not, ◌||◌, ◌==◌,
  if◌then◌else◌, length, get_elem?, listed, pigeonhole, Bool-cases, Option-cases, ◌≡◌, inl, inr,
  refl, ap, ◌∙◌, arith, ==_self,
}
use qq_analyzer.Text.{Text, is_empty}
use qq_analyzer.Cfb.{DirEntry, no_stream}
use qq_analyzer.Cfb.Directory.{is_entry_type}
use qq_analyzer.Cfb.Walk.{Visit, walk, walk_entry, push_stream}
use qq_analyzer.Cfb.WalkOnce.{
  IsGood, Step, walk-Step, here-Step, mark-Step, mark, get_elem?-lt, Step-trans,
}

-- Two ways to walk on agree at every state that has visited `n` entries or more.
abbrev Agree :
    List DirEntry → ℕ → (ℕ → List Text → Visit → Visit) → (ℕ → List Text → Visit → Visit) → Type 0
Agree entries n f g =
    (idx : ℕ) (prefix : List Text) (v : Visit)
    → IsGood entries v
    → n ≤ length v.visited
    → f idx prefix v ≡ g idx prefix v

module _ (entries : List DirEntry) (f g : ℕ → List Text → Visit → Visit)
    (goes_on : (idx : ℕ) (prefix : List Text) (v : Visit)
      → IsGood entries v
      → Step entries v (f idx prefix v)) where
  here-Agree :
      (n : ℕ) (prefix : List Text) (idx : ℕ) (entry : DirEntry) (w : Visit)
      → Agree entries n f g
      → IsGood entries w
      → n ≤ length w.visited
      → (if entry.typ == 1
          then f entry.child (prefix ++ (entry.name ∷ [])) w
          else if entry.typ == 2
          then push_stream prefix entry idx w
          else f entry.child prefix w)
        ≡ (if entry.typ == 1
            then g entry.child (prefix ++ (entry.name ∷ [])) w
            else if entry.typ == 2
            then push_stream prefix entry idx w
            else g entry.child prefix w)
  here-Agree n prefix idx entry w same good far =
      ap
        (λ t.
          if entry.typ == 1
          then t
          else if entry.typ == 2
          then push_stream prefix entry idx w
          else f entry.child prefix w)
        (same entry.child (prefix ++ (entry.name ∷ [])) w good far)
      ∙ ap
          (λ t.
            if entry.typ == 1
            then g entry.child (prefix ++ (entry.name ∷ [])) w
            else if entry.typ == 2
            then push_stream prefix entry idx w
            else t)
          (same entry.child prefix w good far)

  here_longer :
      (prefix : List Text) (idx : ℕ) (entry : DirEntry) (w : Visit)
      → IsGood entries w
      → length w.visited
        ≤ length
            (if entry.typ == 1
              then f entry.child (prefix ++ (entry.name ∷ [])) w
              else if entry.typ == 2
              then push_stream prefix entry idx w
              else f entry.child prefix w).visited
  here_longer prefix idx entry w good = elim (Bool-cases (entry.typ == 1)) [
    | inl storage ↦ rw storage (goes_on entry.child (prefix ++ (entry.name ∷ [])) w good).1.longer
    | inr other ↦ elim (Bool-cases (entry.typ == 2)) [
      | inl stream ↦ rw (other, stream) (omega arith)
      | inr root ↦ rw (other, root) (goes_on entry.child prefix w good).1.longer
    ]
  ]

  walk_entry-Agree :
      (n : ℕ) (prefix : List Text) (idx : ℕ) (entry : DirEntry) (v : Visit)
      → Agree entries n f g
      → IsGood entries v
      → n ≤ suc (length v.visited)
      → listed idx v.visited ≡ false
      → get_elem? entries idx ≡ some entry
      → walk_entry f prefix idx entry (mark idx v) ≡ walk_entry g prefix idx entry (mark idx v)
  walk_entry-Agree n prefix idx entry v same h far new e =
      let marked = mark-Step entries idx v h new (get_elem?-lt entries idx e) in
      elim (Bool-cases (is_empty entry.name || not (is_entry_type entry.typ))) [
        | inl skip ↦ rw skip refl
        | inr go ↦
            let w = f entry.left prefix (mark idx v) in
            let before = goes_on entry.left prefix (mark idx v) marked.0 in
            let self : listed idx (idx ∷ v.visited) ≡ true = ground (arith, ==_self idx) in
            let here =
              here-Step entries f goes_on prefix idx entry v w e (ground arith) new
                (before.1.keeps idx self) (before.1.quiet idx self (h.behind idx new))
                (Step-trans marked.1 before) in
            let left = same entry.left prefix (mark idx v) marked.0 far in
            rw go (
              same entry.right prefix _ here.0
                (omega (arith, here_longer prefix idx entry w before.0, before.1.longer))
              ∙ ap (g entry.right prefix)
                  (here-Agree n prefix idx entry w same before.0 (omega (arith, before.1.longer)))
              ∙ ap
                  (λ t. g entry.right prefix (
                    if entry.typ == 1
                    then g entry.child (prefix ++ (entry.name ∷ [])) t
                    else if entry.typ == 2
                    then push_stream prefix entry idx t
                    else g entry.child prefix t))
                  left)
      ]

-- Once there are levels for every entry that was not visited, one more level changes nothing.
walk-suc :
    (entries : List DirEntry) (fuel idx : ℕ) (prefix : List Text) (v : Visit)
    → IsGood entries v
    → length entries < fuel + length v.visited
    → walk entries (suc fuel) idx prefix v ≡ walk entries fuel idx prefix v
unfolding walk
walk-suc entries zero idx prefix v h enough =
    absurd (omega (arith, pigeonhole (length entries) v.visited h.distinct h.inside))
walk-suc entries (suc fuel) idx prefix v h enough =
    elim (Bool-cases (idx == no_stream || listed idx v.visited)) [
      | inl stop ↦ rw (stop, walk) refl
      | inr go ↦ elim (Option-cases (get_elem? entries idx)) [
        | inl e ↦ rw (go, e, walk) refl
        | inr (entry, e) ↦
            rw (go, e, walk)
              (walk_entry-Agree entries (walk entries (suc fuel)) (walk entries fuel)
                (walk-Step entries (suc fuel)) (suc (length v.visited)) prefix idx entry v
                (λ i p w good far. walk-suc entries fuel i p w good (omega arith)) h (omega arith)
                (ground arith) e)
      ]
    ]

abbrev pub unvisited : Visit
unvisited = record { visited = []; out = [] }

pub unvisited-IsGood : (entries : List DirEntry) → IsGood entries unvisited
unvisited-IsGood entries = record {
  distinct = tt;
  inside = tt;
  once = tt;
  streams = tt;
  behind = λ x n. refl;
}

-- The recursion of `walk` from the root returns, in at most one level more than there are entries:
-- with any further levels the result is the same, even when entries point at each other in a ring.
pub walk-fuel :
    (entries : List DirEntry) (extra : ℕ)
    → walk entries (extra + suc (length entries)) 0 [] unvisited
      ≡ walk entries (suc (length entries)) 0 [] unvisited
walk-fuel entries zero =
    let e : zero + suc (length entries) ≡ suc (length entries) = omega arith in
    ap (λ k. walk entries k 0 [] unvisited) e
walk-fuel entries (suc extra) =
    let e : suc extra + suc (length entries) ≡ suc (extra + suc (length entries)) = omega arith in
    ap (λ k. walk entries k 0 [] unvisited) e
    ∙ walk-suc entries (extra + suc (length entries)) 0 [] unvisited (unvisited-IsGood entries)
        (omega arith)
    ∙ walk-fuel entries extra
