-- ===== src/Cfb/Stored.antt =====
-- `read_stream_entry` of cfb.rs on streams that were stored in chains of sectors.
use qq_analyzer.Base.{
  ◌*◌, ◌<◌, leb, ℕ, List, [], ◌∷◌, ◌++◌, none, some, true, false, ◌==◌, length, take, take-length,
  get_elem?, All, Distinct, Bool-cases, ◌≡◌, ◌⊎◌, inl, inr, refl, ap, arith,
}
use qq_analyzer.Msg3.Outcome.{done, ◌>>=◌, usize_limit}
use qq_analyzer.Cfb.{CfbReader, DirEntry, is_marker}
use qq_analyzer.Cfb.Chain.{concat_sectors, read_sector_chain, mini_chain}
use qq_analyzer.Cfb.ChainLaws.{IsUsable}
use qq_analyzer.Cfb.ChainReads.{IsLinked, chain-IsLinked}
use qq_analyzer.Cfb.MiniReads.{mini_chain-IsLinked}
use qq_analyzer.Cfb.Streams.{
  mini_slice, mini_bytes, concat_mini, is_in_mini, entry_bytes, read_stream_entry,
}

-- A stream in sectors of the file: linked, usable and distinct, with the content at their front.
pub record IsStored (reader : CfbReader) (entry : DirEntry) (content : List ℕ) : Type 0 where
  pub more : List ℕ
  pub padding : List ℕ
  pub linked : IsLinked reader.fat entry.start more
  pub usable : All (IsUsable reader) (entry.start ∷ more)
  pub distinct : Distinct (entry.start ∷ more)
  pub holds : concat_sectors reader (entry.start ∷ more) ≡ content ++ padding
  pub sized : entry.size ≡ length content

-- Mini sectors of the root's stream, one after the other.
abbrev pub mini_content : CfbReader → List ℕ → List ℕ
mini_content reader [] = []
mini_content reader (s ∷ ss) =
    mini_slice reader (s * reader.mini_sector_size) ++ mini_content reader ss

-- A stream in mini sectors of the root's stream, each at an offset that a `usize` holds.
pub record IsMiniStored (reader : CfbReader) (entry : DirEntry) (content : List ℕ) : Type 0 where
  pub more : List ℕ
  pub padding : List ℕ
  pub linked : IsLinked reader.mini_fat entry.start more
  pub usable : All (λ x. is_marker x ≡ false) (entry.start ∷ more)
  pub distinct : Distinct (entry.start ∷ more)
  pub in_range : All (λ s. s * reader.mini_sector_size < usize_limit) (entry.start ∷ more)
  pub holds : mini_content reader (entry.start ∷ more) ≡ content ++ padding
  pub sized : entry.size ≡ length content

take_all : (xs ys zs : List ℕ) (n : ℕ) → zs ≡ xs ++ ys → n ≡ length xs → take n zs ≡ xs
take_all xs ys zs n e h = rw (e, h) (take-length xs ys)

chain_read :
    (reader : CfbReader) (entry : DirEntry) (content : List ℕ)
    → IsStored reader entry content
    → read_sector_chain reader entry.start (some entry.size) none ≡ content
unfolding read_sector_chain
chain_read reader entry content h =
    rw (chain-IsLinked reader entry.start h.more h.linked h.usable h.distinct)
      (take_all content h.padding _ entry.size h.holds h.sized)

concat_mini-mini_content :
    (reader : CfbReader) (sectors : List ℕ)
    → All (λ s. s * reader.mini_sector_size < usize_limit) sectors
    → concat_mini reader sectors ≡ done (mini_content reader sectors)
unfolding mini_bytes
concat_mini-mini_content reader [] h = refl
concat_mini-mini_content reader (s ∷ ss) h =
    let fits : leb usize_limit (s * reader.mini_sector_size) ≡ false = ground (arith, h.0) in
    rw (fits, concat_mini-mini_content reader ss h.1) refl

mini_read :
    (reader : CfbReader) (entry : DirEntry) (content : List ℕ)
    → IsMiniStored reader entry content
    → (concat_mini reader (mini_chain reader entry.start) >>= (λ out. done (take entry.size out)))
      ≡ done content
mini_read reader entry content h =
    rw
      (
        mini_chain-IsLinked reader entry.start h.more h.linked h.usable h.distinct,
        concat_mini-mini_content reader (entry.start ∷ h.more) h.in_range,
      )
      (ap done (take_all content h.padding _ entry.size h.holds h.sized))

nil_of_size :
    (entry : DirEntry) (content : List ℕ)
    → entry.size ≡ length content
    → (entry.size == 0) ≡ true
    → [] ≡ content
nil_of_size entry [] e h = refl
nil_of_size entry (x ∷ xs) e h = absurd (ground arith)

entry_bytes-IsStored :
    (reader : CfbReader) (entry : DirEntry) (content : List ℕ)
    → ((is_in_mini reader entry ≡ false) × IsStored reader entry content)
      ⊎ ((is_in_mini reader entry ≡ true) × IsMiniStored reader entry content)
    → entry_bytes reader entry ≡ done content
entry_bytes-IsStored reader entry content (inl (large, h)) = elim (Bool-cases (entry.size == 0)) [
  | inl empty ↦ rw empty (ap done (nil_of_size entry content h.sized empty))
  | inr some_bytes ↦
      let usable : is_marker entry.start ≡ false = h.usable.0.0 in
      rw (some_bytes, usable, large) (ap done (chain_read reader entry content h))
]
entry_bytes-IsStored reader entry content (inr (small, h)) = elim (Bool-cases (entry.size == 0)) [
  | inl empty ↦ rw empty (ap done (nil_of_size entry content h.sized empty))
  | inr some_bytes ↦
      let usable : is_marker entry.start ≡ false = h.usable.0 in
      rw (some_bytes, usable, small) (mini_read reader entry content h)
]

-- A stream that is stored in linked, usable and distinct sectors of the file, or of the mini stream
-- if it is shorter than the cutoff and there is one, is read back as it was stored, without a panic,
-- if each of its mini sectors begins below 2 ^ 64.
pub read_stream_entry-IsStored :
    (reader : CfbReader) (index : ℕ) (entry : DirEntry) (content : List ℕ)
    → get_elem? reader.entries index ≡ some entry
    → ((is_in_mini reader entry ≡ false) × IsStored reader entry content)
      ⊎ ((is_in_mini reader entry ≡ true) × IsMiniStored reader entry content)
    → read_stream_entry reader index ≡ done (some content)
unfolding read_stream_entry
read_stream_entry-IsStored reader index entry content e h =
    rw (e, read_stream_entry)
      (ap (λ o. o >>= (λ out. done (some out))) (entry_bytes-IsStored reader entry content h))
