-- ===== src/Cpp/Scope/Copying.antt =====
-- The vector that is made of manifest bytes, and their end (src/c2pa.cpp, lines 618 to 625), over
-- the contract of the C interface.
use c2pa_c.Common.{
  ℕ, Bytes, [], ◌∷◌, length, none, some, ok, ◌>>=◌, ◌>>◌, pure, ◌≡◌, ◌≢◌, ◌∙◌, refl, sym, ap, inl,
  inr, arith, Option-cases, ==_ne,
}
use mathlib.Core.Option.{some-injective}
use c2pa_c.Stream.{Ptr}
use c2pa_c.Memory.{seen}
use c2pa_c.Memory.Laws.{borrow-live}
use c2pa_c.Sdk.{Sdk, boxed_slice, as_boxed_slice}
use c2pa_c.CApi.Signing.{c2pa_manifest_bytes_free}
use c2pa_c.CApi.Session.{Call, done, perform}
use c2pa_c.CApi.Protocol.{a_slice, with_kind, Ready, Allowed, view}
use c2pa_c.CApi.Protocol.Handles.{held_slice}
use c2pa_c.CApi.Protocol.Rules.{Memory}
use c2pa_c.Cpp.{Cpp}
use c2pa_c.Cpp.Ends.{Hosted, IsCalm, EndsOr, returns, Ends-pure, Ends-bind, Ends-call}
use c2pa_c.Cpp.Scope.{vector_at}
use c2pa_c.Cpp.Scope.Manifests.{bound, stored, vector_at-stored, free-one}

singleton : (xs : Bytes) → length xs ≡ 1 → (x : ℕ) × (xs ≡ x ∷ [])
singleton [] e = cc
singleton (x ∷ []) e = (x, refl)
singleton (x ∷ y ∷ xs) e = ground arith

module _ (sdk : Sdk) (p : Ptr) (size : ℕ) where
  -- The vector, and the end of the bytes.
  unfoldable pub copied : Cpp sdk Bytes
  copied = do bytes ← vector_at sdk p size; c2pa_manifest_bytes_free sdk p; pure (ok bytes)

  pub copied-stuck :
      (n : ℕ) (u : Memory sdk)
      → p ≢ 0
      → n ≢ 1
      → (view u).holds.kinds p ≡ some (a_slice n)
      → copied u ≡ none
  unfolding copied as_boxed_slice
  copied-stuck n u ne many here = elim (Option-cases (copied u)) [
    | inl stuck ↦ stuck
    | inr (x, run) ↦
        let (x, cell, len) = held_slice sdk u p n here in
        let (v, w, made, more) = bound (vector_at sdk p size) _ u run in
        let (_, w', freed, last) = bound (c2pa_manifest_bytes_free sdk p) _ w more in
        let (bytes, there, one) = free-one sdk p w w' (==_ne p 0 ne) freed in
        let (_, _, _, same) = vector_at-stored sdk p size u w v made in
        let eq : x ≡ bytes = some-injective _ _ (
          sym (ap (seen (as_boxed_slice sdk)) cell)
          ∙ (ap (λ z. stored sdk z p) (sym same) ∙ there)) in
        elim (many (sym len ∙ (ap length eq ∙ one))) [ ]
  ]

vector_at-one :
    (sdk : Sdk) (p : Ptr) (byte : ℕ) (u : Memory sdk)
    → u.cells p ≡ some (boxed_slice (byte ∷ []))
    → vector_at sdk p 1 u ≡ some (byte ∷ [], u)
unfolding vector_at as_boxed_slice
vector_at-one sdk p byte u cell =
    rw (borrow-live (as_boxed_slice sdk) u p (byte ∷ []) (rw (cell, seen) refl), ◌>>=◌) refl

module _ (sdk : Sdk) (good : sdk.Signer → Type 0) (host : Hosted sdk good) where
  -- One byte.
  pub copied-one :
      {bad : Type 0} (p : Ptr) (u : Memory sdk)
      → IsCalm sdk good u
      → (view u).holds.kinds p ≡ some (a_slice 1)
      → EndsOr sdk good bad
          (λ r c. (byte : ℕ) × (r ≡ ok (byte ∷ [])) × (c.holds ≡ with_kind (view u).holds p none))
          (copied sdk p 1)
          u
  unfolding copied perform Ready Allowed
  copied-one p u v here =
      let (x, cell, len) = held_slice sdk u p 1 here in
      let (byte, same) = singleton x len in
      Ends-bind sdk good {P = λ bytes c. (bytes ≡ byte ∷ []) × (c.holds ≡ (view u).holds)}
        (vector_at sdk p 1) _ u
        (returns (byte ∷ []) u (vector_at-one sdk p byte u (rw (← same) cell)) v (refl, refl))
        λ bytes w v' (said, kept).
          Ends-bind sdk good (c2pa_manifest_bytes_free sdk p) _ w
            (Ends-call sdk good host (Call.manifest_bytes_free p) (λ _. done)
              (c2pa_manifest_bytes_free sdk p) w refl v' tt (inr (ap (λ h. h.kinds p) kept ∙ here)))
            λ _ y v'' (_, gone, _).
              Ends-pure sdk good (ok bytes) y v''
                (byte, ap ok said, gone ∙ ap (λ h. with_kind h p none) kept)
