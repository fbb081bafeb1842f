-- ===== src/Msg3/Outcome.antt =====
-- The result of code that can panic, here by an overflow of `usize` or a slice out of bounds.
use mathlib.Core.List.{List}
use qq_analyzer.Base.{ℕ, ◌^◌, ◌≡◌, sym, subst}

pub data Outcome {ℓ} (A : Type ℓ) : Type ℓ where
  done : A → Outcome A
  panicked : Outcome A

infixl 5 ◌>>=◌
abbrev pub ◌>>=◌ {ℓ κ} : {A : Type ℓ} {B : Type κ} → Outcome A → (A → Outcome B) → Outcome B
done a >>= f = f a
panicked >>= f = panicked

-- `usize` has 64 bits.
abbrev pub usize_limit : ℕ
usize_limit = 2 ^ 64

-- What one round of a parse loop says: leave the loop, go on with the rest, or a panic.
pub data Round {ℓ} (A : Type ℓ) : Type ℓ where
  leave : A → Round A
  go_on : List ℕ → A → Round A
  fault : Round A

abbrev pub IsDone {ℓ} : {A : Type ℓ} → Outcome A → Type 0
IsDone (done a) = Unit
IsDone panicked = ⊥

-- A round that goes on, with the given rest.
abbrev pub GoesOn {ℓ} : {A : Type ℓ} → List ℕ → Round A → Type 0
GoesOn rest (leave a) = ⊥
GoesOn rest (go_on rest' a) = rest' ≡ rest
GoesOn rest fault = ⊥

-- A loop: what is done with a round, where `next` is the loop on the rest.
abbrev pub follow {ℓ} : {A : Type ℓ} → Round A → (List ℕ → A → Outcome A) → Outcome A
follow (leave a) next = done a
follow (go_on rest a) next = next rest a
follow fault next = panicked

pub follow-IsDone {ℓ} :
    {A : Type ℓ} (r : Round A) (next : List ℕ → A → Outcome A) (rest : List ℕ)
    → GoesOn rest r
    → ((a : A) → IsDone (next rest a))
    → IsDone (follow r next)
follow-IsDone (leave a) next rest g h = tt
follow-IsDone (go_on rest' a) next rest g h = subst (λ r. IsDone (next r a)) (sym g) (h a)
follow-IsDone fault next rest g h = elim g [ ]
