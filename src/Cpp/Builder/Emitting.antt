-- ===== src/Cpp/Builder/Emitting.antt =====
-- How the members of `Builder` that return manifest bytes end (src/c2pa.cpp, lines 609 to 756),
-- over the contract of the C interface.
use c2pa_c.Common.{ℕ, ℤ, Bytes, Option, none, some, ◌≡◌, ◌≢◌, ◌∙◌, refl, sym, ap, inl, inr}
use mathlib.Core.Path.{subst}
use c2pa_c.Stream.{Ptr}
use c2pa_c.Sdk.{Sdk}
use c2pa_c.CApi.{null}
use c2pa_c.CApi.Signing.{
  c2pa_builder_sign, c2pa_builder_data_hashed_placeholder, c2pa_builder_sign_data_hashed_embeddable,
  c2pa_format_embeddable,
}
use c2pa_c.CApi.Session.{Call, status, perform}
use c2pa_c.CApi.Protocol.{Client, a_builder, a_signer, a_stream, Ready, Allowed, view}
use c2pa_c.CApi.Protocol.Clients.{new_apart}
use c2pa_c.CApi.Protocol.Rules.{Memory}
use c2pa_c.Cpp.{Cpp, c_str}
use c2pa_c.Cpp.Ends.{Hosted, IsCalm, Ends, EndsOr, Ends-weaken, Ends-excuse}
use c2pa_c.Cpp.Iostream.{Iostream, cpp_istream, cpp_iostream}
use c2pa_c.Cpp.Iostream.Answers.{cpp_istream-Answering, cpp_iostream-Answering}
use c2pa_c.Cpp.Texts.{code_of}
use c2pa_c.Cpp.Scope.{with_stream}
use c2pa_c.Cpp.Scope.Streams.{still_held, now_held}
use c2pa_c.Cpp.Scope.Delivery.{
  Loss, with_variable, CallEnd, failed, Emitted, CallEnd-beside, Emitted-beside,
}
use c2pa_c.Cpp.Scope.Taking.{manifest_bytes_of-Emitted}
use c2pa_c.Cpp.Builder.Outcomes.{
  delivery_end, present_of, hashed_end, none-Apart, two-Apart, both, with_stream-beside, called,
}
use c2pa_c.Cpp.Builder.{
  vector_data, sign, data_hashed_placeholder, sign_data_hashed_embeddable, format_embeddable,
}
use c2pa_c.Cpp.Builder.Manifests.{
  Delivering, signed, placeholder, hashed, formatted, deliver, loss_of, Wants, Misfits,
}

module _ (sdk : Sdk) where
  module _ (good : sdk.Signer → Type 0) (host : Hosted sdk good) (slot : Ptr) where
    -- A run of a member.
    abbrev Emits : Type 0 → Loss → Cpp sdk Bytes → Memory sdk → Type 0
    Emits bad loss run w =
        EndsOr sdk good bad
          (λ r c. Emitted slot loss (view w).holds host.null_text r c.holds c.error) run w

    module _ (ne : slot ≢ 0) where
      formatted-Emitted :
          (w : Memory sdk)
          → IsCalm sdk good w
          → (format content : Bytes)
          → Emits
              (Misfits sdk slot (formatted format content) w)
              none
              (format_embeddable sdk format content slot)
              w
      unfolding format_embeddable perform Ready Allowed
      formatted-Emitted w v format content =
          manifest_bytes_of-Emitted sdk good host slot none (view w).holds _ w v refl λ u v' kept.
            called sdk good host slot none
              (Call.format_embeddable (c_str format) (vector_data sdk content) slot)
              (c2pa_format_embeddable sdk (c_str format) (vector_data sdk content) slot) _ u refl tt
              v' kept tt λ code s outcome. by_data code u s (vector_data sdk content) outcome
        where
          by_data :
              (code : ℤ) (u : Memory sdk) (s : Client) (content : Option Bytes)
              → Allowed {sdk = sdk}
                  (Call.format_embeddable (c_str format) content slot)
                  (view u)
                  (status code)
                  s
              → CallEnd slot none (view u).holds code s.holds s.error
          by_data code u s none (said, same, told) = failed _ (ap code_of said) same told
          by_data code u s (some bytes) outcome =
              delivery_end slot none (view u) s code ne (present_of slot _ _ _ ne outcome)

      placeholder-Emitted :
          (w : Memory sdk)
          → IsCalm sdk good w
          → (b : Ptr) (reserve_size : ℕ) (format : Bytes) → (view w).holds.kinds b ≡ some a_builder
          → Emits
              (Misfits sdk slot (placeholder b reserve_size format) w)
              none
              (data_hashed_placeholder sdk b reserve_size format slot)
              w
      unfolding data_hashed_placeholder perform Ready Allowed
      placeholder-Emitted w v b reserve_size format live =
          manifest_bytes_of-Emitted sdk good host slot none (view w).holds _ w v refl λ u v' kept.
            called sdk good host slot none
              (Call.builder_placeholder b reserve_size (c_str format) slot)
              (c2pa_builder_data_hashed_placeholder sdk b reserve_size (c_str format) slot) _ u refl
              tt v' kept (ap (λ h. h.kinds b) kept ∙ live)
              λ code s outcome.
                delivery_end slot none (view u) s code ne (present_of slot _ _ _ ne outcome)

      signed-Emitted :
          (w : Memory sdk)
          → IsCalm sdk good w
          → (b : Ptr) (format : Bytes) (source dest : Iostream sdk.Env) (g : Ptr)
          → Wants sdk (signed b format source dest g) (view w).holds
          → Emits
              (Misfits sdk slot (signed b format source dest g) w)
              none
              (sign sdk b format source dest g slot)
              w
      unfolding sign perform Ready Allowed
      signed-Emitted w v b format source dest g (live, live', (ns, source'), (nd, dest')) =
          with_stream-beside sdk good host slot (λ h. Emitted slot none h host.null_text)
            (cpp_istream source) _ w v ns (cpp_istream-Answering source source')
            (λ q a after error free.
              Emitted-beside slot q none (view w).holds free (none-Apart q) host.null_text a after
                error)
            λ p u opened v' free made.
              Ends-excuse sdk good (λ later. (p, u, opened, later))
                (with_stream-beside sdk good host slot (λ h. Emitted slot none h host.null_text)
                  (cpp_iostream dest) _ u v' nd (cpp_iostream-Answering dest dest')
                  (λ q a after error free.
                    Emitted-beside slot q none (view u).holds free (none-Apart q) host.null_text a
                      after error)
                  λ q x opened' v'' free' made'.
                    Ends-excuse sdk good (λ sent. (q, x, opened', sent))
                      (manifest_bytes_of-Emitted sdk good host slot none (view x).holds _ x v'' refl
                        λ y v3 kept.
                          called sdk good host slot none
                            (Call.builder_sign b (c_str format) p q g slot)
                            (c2pa_builder_sign sdk b (c_str format) p q g slot) _ y refl tt v3 kept
                            (
                              ap (λ h. h.kinds b) kept
                                  ∙ both (view w).holds (view u).holds (view x).holds p q b
                                      a_builder free free' made made' live,
                              ap (λ h. h.kinds g) kept
                                  ∙ both (view w).holds (view u).holds (view x).holds p q g a_signer
                                      free free' made made' live',
                              ap (λ h. h.kinds p) kept
                                  ∙ still_held (view u).holds (view x).holds q p a_stream free'
                                      made' (now_held (view w).holds (view u).holds p made),
                              ap (λ h. h.kinds q) kept
                                  ∙ now_held (view u).holds (view x).holds q made',
                              λ e.
                                  new_apart (view u).holds q p free'
                                    (now_held (view w).holds (view u).holds p made) (sym e),
                            )
                            λ code s outcome. delivery_end slot none (view y) s code ne outcome))

      -- Without an asset, and with one.
      hashed-Emitted :
          (w : Memory sdk)
          → IsCalm sdk good w
          → (b g : Ptr) (data_hash format : Bytes) (asset : Option (Iostream sdk.Env))
          → Wants sdk (hashed b g data_hash format asset) (view w).holds
          → Emits
              (Misfits sdk slot (hashed b g data_hash format asset) w)
              (some (b, g))
              (sign_data_hashed_embeddable sdk b g data_hash format asset slot)
              w
      unfolding sign_data_hashed_embeddable perform Ready Allowed
      hashed-Emitted w v b g data_hash format none (live, live', _) =
          manifest_bytes_of-Emitted sdk good host slot (some (b, g)) (view w).holds _ w v refl
            λ u v' kept.
              called sdk good host slot (some (b, g))
                (Call.builder_sign_hashed b g (c_str data_hash) (c_str format) null slot)
                (c2pa_builder_sign_data_hashed_embeddable sdk b g (c_str data_hash) (c_str format)
                  null slot)
                _ u refl tt v' kept
                (ap (λ h. h.kinds b) kept ∙ live, ap (λ h. h.kinds g) kept ∙ live', inl refl)
                λ code s outcome.
                  hashed_end slot b g (view u) s code ne (present_of slot _ _ _ ne outcome)
      hashed-Emitted w v b g data_hash format (some asset) (live, live', (na, asset')) =
          manifest_bytes_of-Emitted sdk good host slot (some (b, g)) (view w).holds _ w v refl
            λ u v' kept.
              with_asset u v' kept (ap (λ h. h.kinds b) kept ∙ live)
                (ap (λ h. h.kinds g) kept ∙ live')
        where
          with_asset :
              (u : Memory sdk)
              → IsCalm sdk good u
              → (view u).holds ≡ with_variable (view w).holds slot 0
              → (view u).holds.kinds b ≡ some a_builder
              → (view u).holds.kinds g ≡ some a_signer
              → Ends sdk good
                  (λ code s.
                    CallEnd slot
                      (some (b, g))
                      (with_variable (view w).holds slot 0)
                      code
                      s.holds
                      s.error)
                  (with_stream sdk (cpp_istream asset) λ q.
                    c2pa_builder_sign_data_hashed_embeddable sdk b g
                      (c_str data_hash)
                      (c_str format)
                      q
                      slot)
                  u
          with_asset u v' kept live live' =
              Ends-weaken sdk good
                (λ code s outcome.
                  subst (λ h. CallEnd slot (some (b, g)) h code s.holds s.error) kept outcome)
                (with_stream-beside sdk good host slot (CallEnd slot (some (b, g)))
                  (cpp_istream asset) _ u v' na (cpp_istream-Answering asset asset')
                  (λ q code after error free.
                    CallEnd-beside slot q (some (b, g)) (view u).holds free
                      (two-Apart (view u).holds b g q free live live') code after error)
                  λ q x opened v'' free made.
                    called sdk good host slot (some (b, g))
                      (Call.builder_sign_hashed b g (c_str data_hash) (c_str format) q slot)
                      (c2pa_builder_sign_data_hashed_embeddable sdk b g (c_str data_hash)
                        (c_str format) q slot)
                      _ x refl tt v'' refl
                      (
                        still_held (view u).holds (view x).holds q b a_builder free made live,
                        still_held (view u).holds (view x).holds q g a_signer free made live',
                        inr (now_held (view u).holds (view x).holds q made),
                      )
                      λ code s outcome.
                        hashed_end slot b g (view x) s code ne (present_of slot _ _ _ ne outcome))

    -- Where the SDK answers, the standard library has a text for null, and the memory is valid: a
    -- member of the builder that returns a vector of manifest bytes, with a live builder, a live
    -- signer where it has one, streams that can be used and an address for its variable, ends in
    -- one of these ways. It returns one byte, and what the client holds is as before, with
    -- another pointer in the variable. It throws the text of the error that is now the last one,
    -- or what the standard library makes of null where that has a zero byte in it; the variable
    -- is null, and what the client holds is as before, or without the builder and the signer
    -- where data were hashed and signed. It throws and leaves the bytes behind, where their
    -- number is negative as a `c_int`. Or it faults, and its call of the C interface, after the
    -- adapters of its streams have been made and the variable has been set to null, returns with
    -- a number of bytes other than one.
    pub deliver-Emitted :
        (m : Delivering sdk) (w : Memory sdk)
        → IsCalm sdk good w
        → slot ≢ 0
        → Wants sdk m (view w).holds
        → EndsOr sdk good
            (Misfits sdk slot m w)
            (λ r c. Emitted slot (loss_of sdk m) (view w).holds host.null_text r c.holds c.error)
            (deliver sdk m slot)
            w
    deliver-Emitted (signed b format source dest g) w v ne wants =
        signed-Emitted ne w v b format source dest g wants
    deliver-Emitted (placeholder b reserve_size format) w v ne wants =
        placeholder-Emitted ne w v b reserve_size format wants
    deliver-Emitted (hashed b g data_hash format none) w v ne wants =
        hashed-Emitted ne w v b g data_hash format none wants
    deliver-Emitted (hashed b g data_hash format (some asset)) w v ne wants =
        hashed-Emitted ne w v b g data_hash format (some asset) wants
    deliver-Emitted (formatted format content) w v ne wants =
        formatted-Emitted ne w v format content
