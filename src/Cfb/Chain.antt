-- ===== src/Cfb/Chain.antt =====
-- `chain`, `mini_chain` and `read_sector_chain` of cfb.rs: a stream's sectors, one after the other.
use qq_analyzer.Base.{
  ℕ, zero, suc, List, [], ◌∷◌, ◌++◌, Option, none, some, true, false, not, ◌||◌, if◌then◌else◌,
  length, take, get_elem?, listed,
}
use qq_analyzer.Cfb.{CfbReader, is_marker, valid_sector, sector_bytes}

-- The loop of `chain`: `steps` is `max_steps - out.len()`, and `seen` holds the sectors in `out`.
unfoldable pub chain_loop : CfbReader → ℕ → ℕ → List ℕ → List ℕ
chain_loop reader zero sector seen = []
chain_loop reader (suc steps) sector seen =
    elim (is_marker sector || not (valid_sector reader sector) || listed sector seen) [
      | true ↦ []
      | false ↦ sector ∷ elim (get_elem? reader.fat sector) [
        | none ↦ []
        | some next ↦ chain_loop reader steps next (sector ∷ seen)
      ]
    ]

abbrev pub max_steps : CfbReader → Option ℕ → ℕ
max_steps reader none = suc reader.max_sector
max_steps reader (some limit) = limit

unfoldable pub chain : CfbReader → ℕ → Option ℕ → List ℕ
chain reader start limit =
    if is_marker start || not (valid_sector reader start)
    then []
    else chain_loop reader (max_steps reader limit) start []

abbrev pub concat_sectors : CfbReader → List ℕ → List ℕ
concat_sectors reader [] = []
concat_sectors reader (s ∷ ss) = sector_bytes reader s ++ concat_sectors reader ss

abbrev pub truncate : Option ℕ → List ℕ → List ℕ
truncate none out = out
truncate (some size) out = take size out

unfoldable pub read_sector_chain : CfbReader → ℕ → Option ℕ → Option ℕ → List ℕ
read_sector_chain reader start size limit =
    truncate size (concat_sectors reader (chain reader start limit))

-- The loop of `mini_chain` has no bound of its own; `fuel` is one more than the length of the mini
-- FAT, which no chain without repetition reaches.
unfoldable pub mini_loop : List ℕ → ℕ → ℕ → List ℕ → List ℕ
mini_loop mini_fat zero sector seen = []
mini_loop mini_fat (suc fuel) sector seen = elim (is_marker sector || listed sector seen) [
  | true ↦ []
  | false ↦ elim (get_elem? mini_fat sector) [
    | none ↦ []
    | some next ↦ sector ∷ mini_loop mini_fat fuel next (sector ∷ seen)
  ]
]

unfoldable pub mini_chain : CfbReader → ℕ → List ℕ
mini_chain reader start = mini_loop reader.mini_fat (suc (length reader.mini_fat)) start []
