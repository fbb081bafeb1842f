-- ===== src/Cfb/WalkOnce.antt =====
-- `walk` of cfb.rs: what its state keeps.
use qq_analyzer.Base.{
  ℕ, zero, suc, ◌≤◌, ◌<◌, List, [], ◌∷◌, ◌++◌, map, some, true, false, not, ◌||◌, ◌==◌,
  if◌then◌else◌, length, get_elem?, All, All-append, listed, Distinct, Bool-cases, Option-cases,
  ◌≡◌, inl, inr, refl, ap, arith, ==_self,
}
use qq_analyzer.Text.{Text, is_empty}
use qq_analyzer.Cfb.{DirEntry, no_stream}
use qq_analyzer.Cfb.Directory.{is_entry_type}
use qq_analyzer.Cfb.Walk.{Visit, walk, walk_entry, push_stream, join_slash}

-- The indices of the streams found.
abbrev pub indices : List (Text × ℕ) → List ℕ
indices = map (λ p. p.1)

-- The index is that of an entry that holds a stream and has a name.
abbrev pub IsStream : List DirEntry → ℕ → Type 0
IsStream entries idx =
    (e : DirEntry) × (get_elem? entries idx ≡ some e) × (e.typ ≡ 2) × (is_empty e.name ≡ false)

pub record IsGood (entries : List DirEntry) (v : Visit) : Type 0 where
  pub distinct : Distinct v.visited
  pub inside : All (λ x. x < length entries) v.visited
  pub once : Distinct (indices v.out)
  pub streams : All (IsStream entries) (indices v.out)
  pub behind : (x : ℕ) → listed x v.visited ≡ false → listed x (indices v.out) ≡ false

-- A later state: it has visited what was visited, and lists no stream that was visited before.
pub record IsLater (v w : Visit) : Type 0 where
  pub keeps : (x : ℕ) → listed x v.visited ≡ true → listed x w.visited ≡ true
  pub quiet :
      (x : ℕ)
      → listed x v.visited ≡ true
      → listed x (indices v.out) ≡ false
      → listed x (indices w.out) ≡ false
  pub longer : length v.visited ≤ length w.visited

abbrev pub Step : List DirEntry → Visit → Visit → Type 0
Step entries v w = IsGood entries w × IsLater v w

IsLater-refl : (v : Visit) → IsLater v v
IsLater-refl v = record { keeps = λ x h. h; quiet = λ x h n. n; longer = omega arith }

IsLater-trans : {u v w : Visit} → IsLater u v → IsLater v w → IsLater u w
IsLater-trans a b = record {
  keeps = λ x h. b.keeps x (a.keeps x h);
  quiet = λ x h n. b.quiet x (a.keeps x h) (a.quiet x h n);
  longer = omega (arith, a.longer, b.longer);
}

indices-append :
    (xs : List (Text × ℕ)) (p : Text × ℕ) → indices (xs ++ (p ∷ [])) ≡ indices xs ++ (p.1 ∷ [])
indices-append [] p = refl
indices-append (x ∷ xs) p = ap (λ t. x.1 ∷ t) (indices-append xs p)

listed-append :
    (x y : ℕ) (xs : List ℕ)
    → listed x xs ≡ false
    → (x == y) ≡ false
    → listed x (xs ++ (y ∷ [])) ≡ false
listed-append x y [] h n = ground arith
listed-append x y (z ∷ xs) h n = ground (arith, listed-append x y xs)

Distinct-append :
    (xs : List ℕ) (y : ℕ) → Distinct xs → listed y xs ≡ false → Distinct (xs ++ (y ∷ []))
Distinct-append [] y d n = (refl, tt)
Distinct-append (x ∷ xs) y d n =
    (listed-append x y xs d.0 (ground arith), Distinct-append xs y d.1 (ground arith))

pub get_elem?-lt {ℓ} :
    {A : Type ℓ} (xs : List A) (i : ℕ) {a : A} → get_elem? xs i ≡ some a → i < length xs
get_elem?-lt [] i e = ground arith
get_elem?-lt (x ∷ xs) zero e = omega arith
get_elem?-lt (x ∷ xs) (suc i) e = omega (arith, get_elem?-lt xs i e)

other_index :
    (x idx : ℕ) (xs ys : List ℕ) → listed x ys ≡ true → listed idx ys ≡ false → (x == idx) ≡ false
other_index x idx xs [] h n = ground arith
other_index x idx xs (y ∷ ys) h n = ground (arith, other_index x idx xs ys)

abbrev pub mark : ℕ → Visit → Visit
mark idx v = record v { visited = idx ∷ v.visited }

pub mark-Step :
    (entries : List DirEntry) (idx : ℕ) (v : Visit)
    → IsGood entries v
    → listed idx v.visited ≡ false
    → idx < length entries
    → Step entries v (mark idx v)
mark-Step entries idx v h new inside = (
  record {
    distinct = (new, h.distinct);
    inside = (inside, h.inside);
    once = h.once;
    streams = h.streams;
    behind = λ x n. h.behind x (ground arith);
  },
  record { keeps = λ x k. ground arith; quiet = λ x k n. n; longer = omega arith },
)

pub indices-push :
    (prefix : List Text) (entry : DirEntry) (idx : ℕ) (w : Visit)
    → indices (push_stream prefix entry idx w).out ≡ indices w.out ++ (idx ∷ [])
indices-push prefix entry idx w =
    indices-append w.out (join_slash (prefix ++ (entry.name ∷ [])), idx)

unlisted_append :
    (x idx : ℕ) (xs ys : List ℕ)
    → listed x ys ≡ false
    → listed idx ys ≡ true
    → listed x xs ≡ false
    → listed x (xs ++ (idx ∷ [])) ≡ false
unlisted_append x idx xs ys n k h =
    listed-append x idx xs h (ground (arith, other_index idx x xs ys k n))

-- Listing a stream that was marked after `v`, and is not listed yet.
push-Step :
    (entries : List DirEntry) (prefix : List Text) (entry : DirEntry) (idx : ℕ) (v w : Visit)
    → IsGood entries w
    → IsLater v w
    → IsStream entries idx
    → listed idx v.visited ≡ false
    → listed idx w.visited ≡ true
    → listed idx (indices w.out) ≡ false
    → Step entries v (push_stream prefix entry idx w)
push-Step entries prefix entry idx v w good later stream new marked fresh =
    let e = indices-push prefix entry idx w in
    (
      record {
        distinct = good.distinct;
        inside = good.inside;
        once = rw e (Distinct-append (indices w.out) idx good.once fresh);
        streams = rw e (All-append _ (indices w.out) (idx ∷ []) good.streams (stream, tt));
        behind = λ x n.
            rw e (unlisted_append x idx (indices w.out) w.visited n marked (good.behind x n));
      },
      record {
        keeps = later.keeps;
        quiet = λ x k n. rw e (
            listed-append x idx (indices w.out) (later.quiet x k n)
              (other_index x idx (indices w.out) v.visited k new));
        longer = later.longer;
      },
    )

pub Step-trans :
    {entries : List DirEntry} {u v w : Visit} → IsLater u v → Step entries v w → Step entries u w
Step-trans a b = (b.0, IsLater-trans a b.1)

module _ (entries : List DirEntry) (walk_on : ℕ → List Text → Visit → Visit)
    (goes_on : (idx : ℕ) (prefix : List Text) (v : Visit)
      → IsGood entries v
      → Step entries v (walk_on idx prefix v)) where
  pub here-Step :
      (prefix : List Text) (idx : ℕ) (entry : DirEntry) (v w : Visit)
      → get_elem? entries idx ≡ some entry
      → is_empty entry.name ≡ false
      → listed idx v.visited ≡ false
      → listed idx w.visited ≡ true
      → listed idx (indices w.out) ≡ false
      → Step entries v w
      → Step entries v (
          if entry.typ == 1
          then walk_on entry.child (prefix ++ (entry.name ∷ [])) w
          else if entry.typ == 2
          then push_stream prefix entry idx w
          else walk_on entry.child prefix w)
  here-Step prefix idx entry v w e named new marked fresh before =
      elim (Bool-cases (entry.typ == 1)) [
        | inl storage ↦
            rw storage
              (Step-trans before.1 (goes_on entry.child (prefix ++ (entry.name ∷ [])) w before.0))
        | inr other ↦ elim (Bool-cases (entry.typ == 2)) [
          | inl stream ↦
              rw (other, stream)
                (push-Step entries prefix entry idx v w before.0 before.1
                  (entry, e, ground arith, named) new marked fresh)
          | inr root ↦
              rw (other, root) (Step-trans before.1 (goes_on entry.child prefix w before.0))
        ]
      ]

  pub walk_entry-Step :
      (prefix : List Text) (idx : ℕ) (entry : DirEntry) (v : Visit)
      → IsGood entries v
      → listed idx v.visited ≡ false
      → get_elem? entries idx ≡ some entry
      → Step entries v (walk_entry walk_on prefix idx entry (mark idx v))
  walk_entry-Step prefix idx entry v h new e =
      let marked = mark-Step entries idx v h new (get_elem?-lt entries idx e) in
      elim (Bool-cases (is_empty entry.name || not (is_entry_type entry.typ))) [
        | inl skip ↦ rw skip marked
        | inr go ↦
            let before = goes_on entry.left prefix (mark idx v) marked.0 in
            let self : listed idx (idx ∷ v.visited) ≡ true = ground (arith, ==_self idx) in
            let here =
              here-Step prefix idx entry v (walk_on entry.left prefix (mark idx v)) e (ground arith)
                new (before.1.keeps idx self) (before.1.quiet idx self (h.behind idx new))
                (Step-trans marked.1 before) in
            rw go (Step-trans here.1 (goes_on entry.right prefix _ here.0))
      ]

pub walk-Step :
    (entries : List DirEntry) (fuel idx : ℕ) (prefix : List Text) (v : Visit)
    → IsGood entries v
    → Step entries v (walk entries fuel idx prefix v)
unfolding walk
walk-Step entries zero idx prefix v h = (h, IsLater-refl v)
walk-Step entries (suc fuel) idx prefix v h =
    elim (Bool-cases (idx == no_stream || listed idx v.visited)) [
      | inl stop ↦ rw (stop, walk) (h, IsLater-refl v)
      | inr go ↦ elim (Option-cases (get_elem? entries idx)) [
        | inl e ↦ rw (go, e, walk) (h, IsLater-refl v)
        | inr (entry, e) ↦
            rw (go, e, walk)
              (walk_entry-Step entries (walk entries fuel) (walk-Step entries fuel) prefix idx entry
                v h (ground arith) e)
      ]
    ]
