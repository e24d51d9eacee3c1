-- ===== src/Cpp/Builder/Manifests.antt =====
-- The members of `Builder` that return manifest bytes (src/c2pa.cpp, lines 609 to 756), and what
-- they want.
use c2pa_c.Common.{ℕ, Bytes, Option, none, some, ◌≡◌, ◌≢◌}
use c2pa_c.Stream.{Ptr}
use c2pa_c.Sdk.{Sdk}
use c2pa_c.CApi.Protocol.{a_builder, a_signer, Holdings}
use c2pa_c.CApi.{null}
use c2pa_c.CApi.Streams.{c2pa_create_stream}
use c2pa_c.CApi.Signing.{
  c2pa_builder_sign, c2pa_builder_data_hashed_placeholder, c2pa_builder_sign_data_hashed_embeddable,
  c2pa_format_embeddable,
}
use c2pa_c.CApi.Protocol.Rules.{Memory}
use c2pa_c.Cpp.{Cpp, c_str}
use c2pa_c.Cpp.Scope.{with_stream}
use c2pa_c.Cpp.Scope.Taking.{Sent}
use c2pa_c.Cpp.Iostream.{Iostream, cpp_istream, cpp_iostream}
use c2pa_c.Cpp.Iostream.Answers.{IsReturning}
use c2pa_c.Cpp.Scope.Delivery.{Loss}
use c2pa_c.Cpp.Builder.{
  sign, data_hashed_placeholder, sign_data_hashed_embeddable, format_embeddable, vector_data,
}

module _ (sdk : Sdk) where
  -- The members, with the arguments that they are given.
  pub data Delivering : Type 0 where
    signed :
        (builder : Ptr) (format : Bytes) (source dest : Iostream sdk.Env) (signer : Ptr)
        → Delivering
    placeholder : (builder : Ptr) (reserve_size : ℕ) (format : Bytes) → Delivering
    hashed :
        (builder signer : Ptr) (data_hash format : Bytes) (asset : Option (Iostream sdk.Env))
        → Delivering
    formatted : (format content : Bytes) → Delivering

  -- A member, with its local variable at an address.
  abbrev pub deliver : Delivering → (slot : Ptr) → Cpp sdk Bytes
  deliver (signed builder format source dest signer) slot =
      sign sdk builder format source dest signer slot
  deliver (placeholder builder reserve_size format) slot =
      data_hashed_placeholder sdk builder reserve_size format slot
  deliver (hashed builder signer data_hash format asset) slot =
      sign_data_hashed_embeddable sdk builder signer data_hash format asset slot
  deliver (formatted format content) slot = format_embeddable sdk format content slot

  -- What an error of a member may free.
  abbrev pub loss_of : Delivering → Loss
  loss_of (hashed builder signer data_hash format asset) = some (builder, signer)
  loss_of _ = none

  -- A stream of C++ that can be used.
  abbrev pub IsUsable : Iostream sdk.Env → Type 0
  IsUsable stream = (stream.address ≢ 0) × IsReturning stream

  abbrev pub UsableAsset : Option (Iostream sdk.Env) → Type 0
  UsableAsset none = Unit
  UsableAsset (some asset) = IsUsable asset

  -- What a member wants: live objects, and streams that can be used.
  abbrev pub Wants : Delivering → Holdings → Type 0
  Wants (signed builder format source dest signer) h =
      (h.kinds builder ≡ some a_builder)
      × (h.kinds signer ≡ some a_signer)
      × IsUsable source
      × IsUsable dest
  Wants (placeholder builder reserve_size format) h = h.kinds builder ≡ some a_builder
  Wants (hashed builder signer data_hash format asset) h =
      (h.kinds builder ≡ some a_builder) × (h.kinds signer ≡ some a_signer) × UsableAsset asset
  Wants (formatted format content) h = Unit

  -- The call of a member gives bytes that are not one byte.
  abbrev pub Misfits : (slot : Ptr) → Delivering → Memory sdk → Type 0
  Misfits slot (signed builder format source dest signer) w =
      (p : Ptr) × (x : Memory sdk) × (c2pa_create_stream sdk (cpp_istream source) w ≡ some (p, x))
      × ((q : Ptr) × (y : Memory sdk) × (c2pa_create_stream sdk (cpp_iostream dest) x ≡ some (q, y))
          × Sent sdk slot (c2pa_builder_sign sdk builder (c_str format) p q signer slot) y)
  Misfits slot (placeholder builder reserve_size format) w =
      Sent sdk slot
        (c2pa_builder_data_hashed_placeholder sdk builder reserve_size (c_str format) slot) w
  Misfits slot (hashed builder signer data_hash format none) w =
      Sent sdk slot
        (c2pa_builder_sign_data_hashed_embeddable sdk builder signer (c_str data_hash)
          (c_str format) null slot)
        w
  Misfits slot (hashed builder signer data_hash format (some asset)) w =
      Sent sdk slot
        (with_stream sdk (cpp_istream asset) λ q.
          c2pa_builder_sign_data_hashed_embeddable sdk builder signer (c_str data_hash)
            (c_str format) q slot)
        w
  Misfits slot (formatted format content) w =
      Sent sdk slot (c2pa_format_embeddable sdk (c_str format) (vector_data sdk content) slot) w
