-- ===== src/CApi/Protocol/Handles.antt =====
-- The object behind a handle of the C interface (src/c_api.rs) that a client holds.
use c2pa_c.Common.{ℕ, Bytes, length, Option, none, some, ◌≡◌, refl}
use c2pa_c.Stream.{Ptr, CStream}
use c2pa_c.Memory.{World}
use c2pa_c.Sdk.{Sdk, Block, builder, reader, signer, stream, c_string, boxed_slice}
use c2pa_c.CApi.Protocol.{
  Kind, a_builder, a_reader, a_signer, a_stream, a_text, a_slice, kind_at, kind_of, view,
}

module _ (sdk : Sdk) where
  abbrev Memory : Type 0
  Memory = World sdk.Env (Block sdk)

  is_builder : (b : Block sdk) → kind_of b ≡ a_builder → (x : sdk.Builder) × (b ≡ builder x)
  is_builder (builder x) h = (x, refl)
  is_builder _ h = cc

  is_reader : (b : Block sdk) → kind_of b ≡ a_reader → (x : sdk.Reader) × (b ≡ reader x)
  is_reader (reader x) h = (x, refl)
  is_reader _ h = cc

  is_signer : (b : Block sdk) → kind_of b ≡ a_signer → (x : sdk.Signer) × (b ≡ signer x)
  is_signer (signer x) h = (x, refl)
  is_signer _ h = cc

  is_stream : (b : Block sdk) → kind_of b ≡ a_stream → (x : CStream sdk.Env) × (b ≡ stream x)
  is_stream (stream x) h = (x, refl)
  is_stream _ h = cc

  is_text : {t : Bytes} (b : Block sdk) → kind_of b ≡ a_text t → (x : Bytes) × (b ≡ c_string x)
  is_text (c_string x) h = (x, refl)
  is_text _ h = cc

  is_slice :
      (b : Block sdk) (n : ℕ)
      → kind_of b ≡ a_slice n
      → (x : Bytes) × (b ≡ boxed_slice x) × (length x ≡ n)
  is_slice (boxed_slice x) n h = (x, refl, cc)
  is_slice _ n h = cc

  live :
      (c : Option (Block sdk)) (k : Kind)
      → kind_at c ≡ some k
      → (b : Block sdk) × (c ≡ some b) × (kind_of b ≡ k)
  live none k h = cc
  live (some b) k h = (b, refl, cc)

  module _ (w : Memory) (p : Ptr) where
    pub held_builder :
        (view w).holds.kinds p ≡ some a_builder → (x : sdk.Builder) × (w.cells p ≡ some (builder x))
    held_builder h =
        let (b, e, k) = live (w.cells p) a_builder h in let (x, e') = is_builder b k in (x, cc)

    pub held_reader :
        (view w).holds.kinds p ≡ some a_reader → (x : sdk.Reader) × (w.cells p ≡ some (reader x))
    held_reader h =
        let (b, e, k) = live (w.cells p) a_reader h in let (x, e') = is_reader b k in (x, cc)

    pub held_signer :
        (view w).holds.kinds p ≡ some a_signer → (x : sdk.Signer) × (w.cells p ≡ some (signer x))
    held_signer h =
        let (b, e, k) = live (w.cells p) a_signer h in let (x, e') = is_signer b k in (x, cc)

    pub held_stream :
        (view w).holds.kinds p ≡ some a_stream
        → (x : CStream sdk.Env) × (w.cells p ≡ some (stream x))
    held_stream h =
        let (b, e, k) = live (w.cells p) a_stream h in let (x, e') = is_stream b k in (x, cc)

    pub held_text :
        {t : Bytes}
        → (view w).holds.kinds p ≡ some (a_text t)
        → (x : Bytes) × (w.cells p ≡ some (c_string x))
    held_text h =
        let (b, e, k) = live (w.cells p) (a_text _) h in let (x, e') = is_text b k in (x, cc)

    pub held_slice :
        (n : ℕ)
        → (view w).holds.kinds p ≡ some (a_slice n)
        → (x : Bytes) × (w.cells p ≡ some (boxed_slice x)) × (length x ≡ n)
    held_slice n h =
        let (b, e, k) = live (w.cells p) (a_slice n) h in
        let (x, e', l) = is_slice b n k in (x, cc, l)
