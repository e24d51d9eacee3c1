-- ===== src/Cpp/Scope/Manifests.antt =====
-- The manifest bytes in the C++ wrapper (src/c2pa.cpp, lines 609 to 756):
-- `c2pa_manifest_bytes_free` takes what it is given for a box of one byte.
use c2pa_c.Common.{
  ℕ, Bytes, length, take, leb, Bool, true, false, Option, none, some, M, ◌>>=◌, pure, fault, ◌≡◌,
  ◌∙◌, refl, sym, ap, if◌then◌else◌, ◌==◌, arith, Option-cases, inl, inr,
}
use mathlib.Core.Option.{some-injective}
use c2pa_c.Stream.{Ptr}
use c2pa_c.Memory.{World, borrow, from_raw, object_at}
use c2pa_c.Memory.Laws.{borrow-live, borrow-dead, from_raw-live, from_raw-dead}
use c2pa_c.Sdk.{Sdk, as_boxed_slice}
use c2pa_c.CApi.{null}
use c2pa_c.CApi.Signing.{c2pa_manifest_bytes_free, free_one_byte}
use c2pa_c.CApi.Protocol.Rules.{Memory}
use c2pa_c.Cpp.Scope.{vector_at}

module _ {W A B : Type 0} where
  -- What ran, if two actions ran one after the other.
  pub bound :
      (m : M W A) (f : A → M W B) (w : W) {x : B × W}
      → (m >>= f) w ≡ some x
      → (a : A) × (u : W) × (m w ≡ some (a, u)) × (f a u ≡ some x)
  bound m f w {x} e = by_first (m w) refl e
    where
      by_first :
          (o : Option (A × W))
          → m w ≡ o
          → ◌≡◌ {A = Option (B × W)} (elim o [ none ↦ none | some (a, w') ↦ f a w' ]) (some x)
          → (a : A) × (u : W) × (m w ≡ some (a, u)) × (f a u ≡ some x)
      by_first none run e = cc
      by_first (some (a, u)) run e = (a, u, run, e)

pure_if :
    {W A : Type 0} (b : Bool) (x y : A) (w u : W)
    → ◌≡◌ {A = Option (A × W)} ((if b then pure x else fault) w) (some (y, u))
    → (b ≡ true) × (x ≡ y) × (w ≡ u)
pure_if true x y w u e =
    let same = some-injective _ _ e in (refl, ap (λ x. x.0) same, ap (λ x. x.1) same)
pure_if false x y w u e = cc

-- The object that was at an address where one was borrowed, or taken back.
borrow-object :
    {E B A : Type 0} (view : B → Option A) (w u : World E B) (p : Ptr) (a : A)
    → borrow view p w ≡ some (a, u)
    → (object_at view w p ≡ some a) × (u ≡ w)
borrow-object view w u p a e = elim (Option-cases (object_at view w p)) [
  | inl dead ↦ let gone : borrow view p w ≡ none = borrow-dead view w p dead in cc
  | inr (b, here) ↦
      let same = some-injective _ _ (sym e ∙ borrow-live view w p b here) in
      (rw (ap (λ x. x.0) same) here, ap (λ x. x.1) same)
]

from_raw-object :
    {E B A : Type 0} (view : B → Option A) (w u : World E B) (p : Ptr) (a : A)
    → from_raw view p w ≡ some (a, u)
    → object_at view w p ≡ some a
from_raw-object view w u p a e = elim (Option-cases (object_at view w p)) [
  | inl dead ↦ let gone : from_raw view p w ≡ none = from_raw-dead view w p dead in cc
  | inr (b, here) ↦
      let same = some-injective _ _ (sym e ∙ from_raw-live view w p b here) in
      rw (ap (λ x. x.0) same) here
]

module _ (sdk : Sdk) where
  abbrev pub stored : Memory sdk → Ptr → Option Bytes
  stored w p = object_at (as_boxed_slice sdk) w p

  -- A vector is the start of what is stored.
  pub vector_at-stored :
      (p : Ptr) (n : ℕ) (w u : Memory sdk) (v : Bytes)
      → vector_at sdk p n w ≡ some (v, u)
      → (bytes : Bytes) × (stored w p ≡ some bytes) × (v ≡ take n bytes) × (u ≡ w)
  unfolding vector_at
  vector_at-stored p n w u v e =
      let (bytes, x, run, last) = bound (borrow (as_boxed_slice sdk) p) _ w e in
      let (here, same) = borrow-object (as_boxed_slice sdk) w x p bytes run in
      let (_, value, kept) = pure_if (leb n (length bytes)) (take n bytes) v x u last in
      (bytes, here, sym value, sym kept ∙ same)

  -- Only one byte is freed.
  pub free-one :
      (p : Ptr) (w u : Memory sdk)
      → (p == null) ≡ false
      → c2pa_manifest_bytes_free sdk p w ≡ some (tt, u)
      → (bytes : Bytes) × (stored w p ≡ some bytes) × (length bytes ≡ 1)
  unfolding c2pa_manifest_bytes_free free_one_byte
  free-one p w u ne e =
      let (bytes, x, run, last) =
        bound (from_raw (as_boxed_slice sdk) p)
          (λ bytes. if length bytes == 1 then pure tt else fault) w (rw ne at e) in
      let here = from_raw-object (as_boxed_slice sdk) w x p bytes run in
      let (one, _, _) = pure_if (length bytes == 1) tt tt x u last in
      (bytes, here, ground (arith, one))
