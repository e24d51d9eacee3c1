-- ===== src/Memory/Frame/Changes.antt =====
-- Steps of the memory shared with C (src/c_api.rs): what has changed from one state to another.
use c2pa_c.Common.{
  ℕ, ◌≤◌, ◌<◌, Bool, true, false, ◌||◌, List, [], ◌∷◌, Option, some, M, ◌≡◌, ◌∙◌, refl, arith, ◌==◌,
  if◌then◌else◌, ap,
}
use mathlib.Core.Option.{some-injective}
use mathlib.Core.Path.{subst}
use c2pa_c.Stream.{Ptr}
use c2pa_c.Memory.{World, update}
use c2pa_c.Memory.Laws.{IsValid, Every}

abbrev pub has : Ptr → List Ptr → Bool
has p [] = false
has p (q ∷ qs) = (q == p) || has p qs

-- A memory is valid, and its objects have a property.
pub record Fits {E B : Type 0} (G : B → Type 0) (w : World E B) : Type 0 where
  pub valid : IsValid w
  pub every : Every G w

-- From `w` to `w'` objects appear at new addresses only, and no others change than those listed.
pub record Steps {E B : Type 0} (G : B → Type 0) (touched : List Ptr) (w w' : World E B)
    : Type 0 where
  pub grows : w.next ≤ w'.next
  pub fits : Fits G w'
  pub frame : (p : Ptr) → p < w.next → has p touched ≡ false → w'.cells p ≡ w.cells p

-- Every run from such a world whose addresses reach `n` is such a step.
abbrev pub Keeps : {E B A : Type 0} → (B → Type 0) → ℕ → List Ptr → M (World E B) A → Type 0
Keeps {E} {B} {A} G n touched m =
    (w : World E B)
    → Fits G w
    → n ≤ w.next
    → (a : A) (w' : World E B) → m w ≡ some (a, w')
    → Steps G touched w w'

-- An object that was seen through a view has the property.
abbrev pub Seen : {B A : Type 0} → (B → Type 0) → (B → Option A) → A → Type 0
Seen {B} G view a = (b : B) × (view b ≡ some a) × G b

-- What an update leaves there: an object that was there before, or the new one.
pub Every-update :
    {B : Type 0} {G : B → Type 0} (cells : Ptr → Option B) (p : Ptr) (c : Option B)
    → ((q : Ptr) (b : B) → cells q ≡ some b → G b)
    → ((b : B) → c ≡ some b → G b)
    → (q : Ptr) (b : B) → update cells p c q ≡ some b
    → G b
Every-update {B} {G} cells p c old new q b e = by_test (p == q) e
  where
    by_test : (t : Bool) → (if t then c else cells q) ≡ some b → G b
    by_test true e = new b e
    by_test false e = old q b e

-- The new object.
pub Every-some :
    {B : Type 0} (G : B → Type 0) (b c : B) → G b → ◌≡◌ {A = Option B} (some b) (some c) → G c
Every-some G b c g e = subst G (some-injective _ _ e) g

module _ {E B : Type 0} {G : B → Type 0} where
  pub Steps-refl : (ts : List Ptr) (w : World E B) → Fits G w → Steps G ts w w
  Steps-refl ts w v = record { grows = omega arith; fits = v; frame = λ p h o. refl }

  pub Steps-trans :
      {ts : List Ptr} {u v w : World E B} → Steps G ts u v → Steps G ts v w → Steps G ts u w
  Steps-trans {v} s r = record {
    grows = omega (arith, s.grows, r.grows);
    fits = r.fits;
    frame = λ p h o. r.frame p (omega (arith, s.grows)) o ∙ s.frame p h o;
  }

-- The world that a run returned.
pub returned :
    {W A : Type 0} {a b : A} {w w' : W}
    → ◌≡◌ {A = Option (A × W)} (some (a, w)) (some (b, w'))
    → w ≡ w'
returned {W} {A} {a} {b} {w} {w'} e =
    let same : ◌≡◌ {A = A × W} (a, w) (b, w') = some-injective _ _ e in ap (λ r. r.1) same

-- A run that ends in a known world.
pub ends :
    {E B A : Type 0} {G : B → Type 0} {ts : List Ptr} {w u w' : World E B} {a b : A}
    → Steps G ts w u
    → ◌≡◌ {A = Option (A × World E B)} (some (a, u)) (some (b, w'))
    → Steps G ts w w'
ends {G} {ts} {w} s e = subst (λ x. Steps G ts w x) (returned e) s
