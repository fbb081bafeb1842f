-- ===== src/Cfb/Walk.antt =====
-- `list_streams` and `walk` of cfb.rs: the tree of directory entries.
use qq_analyzer.Base.{
  ℕ, zero, suc, List, [], ◌∷◌, ◌++◌, none, some, true, false, not, ◌&&◌, ◌||◌, ◌==◌, if◌then◌else◌,
  length, get_elem?, listed,
}
use qq_analyzer.Text.{Text, is_empty}
use qq_analyzer.Cfb.{DirEntry, CfbReader, no_stream}
use qq_analyzer.Cfb.Directory.{is_entry_type}

-- `visited` and `out`.
pub record Visit : Type 0 where
  pub visited : List ℕ
  pub out : List (Text × ℕ)

-- `parts.join("/")`.
abbrev pub join_slash : List Text → Text
join_slash [] = []
join_slash (p ∷ []) = p
join_slash (p ∷ q ∷ ps) = p ++ (47 ∷ join_slash (q ∷ ps))

abbrev pub push_stream : List Text → DirEntry → ℕ → Visit → Visit
push_stream prefix entry idx v = record v {
  out = v.out ++ ((join_slash (prefix ++ (entry.name ∷ [])), idx) ∷ []);
}

-- The body of `walk` for an entry, where `walk_on` is the call of `walk` on its neighbours.
abbrev pub walk_entry : (ℕ → List Text → Visit → Visit) → List Text → ℕ → DirEntry → Visit → Visit
walk_entry walk_on prefix idx entry v =
    if is_empty entry.name || not (is_entry_type entry.typ)
    then v
    else let before = walk_on entry.left prefix v in
      let here =
        if entry.typ == 1
        then walk_on entry.child (prefix ++ (entry.name ∷ [])) before
        else if entry.typ == 2
        then push_stream prefix entry idx before
        else walk_on entry.child prefix before in
      walk_on entry.right prefix here

unfoldable pub walk : List DirEntry → ℕ → ℕ → List Text → Visit → Visit
walk entries zero idx prefix v = v
walk entries (suc fuel) idx prefix v = elim (idx == no_stream || listed idx v.visited) [
  | true ↦ v
  | false ↦ elim (get_elem? entries idx) [
    | none ↦ v
    | some entry ↦
        walk_entry (walk entries fuel) prefix idx entry (record v { visited = idx ∷ v.visited })
  ]
]

-- `entries.iter().enumerate().filter(..).map(..)`, counting from `idx`.
abbrev pub all_streams : ℕ → List DirEntry → List (Text × ℕ)
all_streams idx [] = []
all_streams idx (e ∷ es) =
    let more = all_streams (suc idx) es in
    if not (is_empty e.name) && e.typ == 2 then (e.name, idx) ∷ more else more

-- Each call that goes on visits another entry, so that one more than their number is fuel enough.
abbrev pub walked : List DirEntry → List (Text × ℕ)
walked entries = (walk entries (suc (length entries)) 0 [] (record { visited = []; out = [] })).out

abbrev pub or_all : List DirEntry → List (Text × ℕ) → List (Text × ℕ)
or_all entries [] = all_streams 0 entries
or_all entries (s ∷ ss) = s ∷ ss

unfoldable pub list_streams : CfbReader → List (Text × ℕ)
list_streams reader = or_all reader.entries (walked reader.entries)
