-- ===== src/Common/Results.antt =====
-- Rust's `Result`, and the actions of the model: a state that is passed on, with a fault.
use mathlib.Core.Option.{Option, none, some}

pub data Result (A E : Type 0) : Type 0 where
  ok : A → Result A E
  err : E → Result A E

-- `none` is a fault: undefined behaviour, or an abort of the process.
abbrev pub M : Type 0 → Type 0 → Type 0
M W A = W → Option (A × W)

infixl 5 ◌>>=◌ ◌>>◌
abbrev pub ◌>>=◌ : {W A B : Type 0} → M W A → (A → M W B) → M W B
◌>>=◌ m f w = elim (m w) [ none ↦ none | some (a, w') ↦ f a w' ]

abbrev pub ◌>>◌ : {W B : Type 0} → M W (Unit {0}) → M W B → M W B
m >> k = m >>= λ _. k

abbrev pub pure : {W A : Type 0} → A → M W A
pure a w = some (a, w)

abbrev pub fault : {W A : Type 0} → M W A
fault w = none

-- A value that must be there.
abbrev pub or_fault : {W A : Type 0} → Option A → M W A
or_fault none w = none
or_fault (some a) w = some (a, w)

abbrev pub gets : {W A : Type 0} → (W → A) → M W A
gets f w = some (f w, w)

abbrev pub modify : {W : Type 0} → (W → W) → M W (Unit {0})
modify f w = some (tt, f w)
