-- ===== src/CApi/Frame.antt =====
-- Rules for what the functions of the interface (src/c_api.rs) may touch; the functions follow in
-- the children.
pub mod Reading
pub mod Building
pub mod Signing
pub mod Others
use c2pa_c.Common.{
  ℕ, ◌<◌, Bytes, List, [], ◌∷◌, true, Option, none, some, Result, ok, err, ℤ, ◌>>=◌, ◌>>◌, pure,
  ◌≡◌, refl, ◌||◌, ==_refl, ◌==◌, if◌then◌else◌,
}
use mathlib.Core.Option.{some-injective}
use mathlib.Core.Path.{subst}
use c2pa_c.Error.{null_parameter}
use c2pa_c.Error.Convert.{C2paError, from_c2pa_error}
use c2pa_c.Stream.{Ptr, CStream}
use c2pa_c.Memory.{World, from_raw, in_thread, alloc, write_slot, fail_with}
use c2pa_c.Memory.Frame.{
  has, Keeps, Keeps-pure, Keeps-fault, Keeps-if, Keeps-in_thread, Keeps-fail_with, Keeps-borrow,
  Keeps-bind, Keeps-from_raw, Keeps-into_raw, Keeps-alloc, Keeps-write_slot, Seen,
}
use c2pa_c.Sdk.{
  Sdk, SignerInfo, Block, builder, reader, signer, stream, c_string, boxed_slice, as_builder,
  as_reader, as_signer, as_stream, as_c_string, as_boxed_slice,
}
use c2pa_c.Sdk.Calm.{Has}
use c2pa_c.CApi.{
  CStr, Api, null, minus_one, with_cstr, null_check, sdk_error, to_c_string, give_bytes, has_zero,
}

-- A signer that was seen has its property.
pub signer_has :
    (sdk : Sdk) {S : CStream sdk.Env → Type 0} {K : sdk.Signer → Type 0} {k : sdk.Signer}
    → Seen (Has sdk S K) (as_signer sdk) k
    → K k
unfolding as_signer
signer_has sdk {K} (signer k, e, g) = subst K (some-injective _ _ e) g
signer_has sdk (builder _, e, g) = cc
signer_has sdk (reader _, e, g) = cc
signer_has sdk (stream _, e, g) = cc
signer_has sdk (c_string _, e, g) = cc
signer_has sdk (boxed_slice _, e, g) = cc

module _ (sdk : Sdk) {S : CStream sdk.Env → Type 0} {K : sdk.Signer → Type 0} {n : ℕ}
    {ts : List Ptr} where
  pub Keeps-with_cstr :
      {A : Type 0} (name : Bytes) (s : CStr) (early : A) {rest : Bytes → Api sdk A}
      → ((text : Bytes) → Keeps (Has sdk S K) n ts (rest text))
      → Keeps (Has sdk S K) n ts (with_cstr sdk name s early rest)
  unfolding with_cstr
  Keeps-with_cstr name none early h = Keeps-fail_with (null_parameter name) early
  Keeps-with_cstr name (some s) early h = h _

  pub Keeps-null_check :
      {A : Type 0} (name : Bytes) (p : Ptr) (early : A) {rest : Api sdk A}
      → Keeps (Has sdk S K) n ts rest
      → Keeps (Has sdk S K) n ts (null_check sdk name p early rest)
  unfolding null_check
  Keeps-null_check name p early h = Keeps-if (p == null) (Keeps-fail_with _ early) h

  pub Keeps-sdk_error :
      {A : Type 0} (e : C2paError) (a : A) → Keeps (Has sdk S K) n ts (sdk_error sdk e a)
  unfolding sdk_error
  Keeps-sdk_error e a = Keeps-fail_with (from_c2pa_error e) a

  pub Keeps-to_c_string : (s : Bytes) → Keeps (Has sdk S K) n ts (to_c_string sdk s)
  unfolding to_c_string
  Keeps-to_c_string s = Keeps-if (has_zero s) (Keeps-pure null) (Keeps-alloc (c_string s) tt)

  pub Keeps-give_bytes :
      (slot : Ptr) (bytes : Bytes) → Keeps (Has sdk S K) n ts (give_bytes sdk slot bytes)
  unfolding give_bytes
  Keeps-give_bytes slot bytes =
      Keeps-bind (Keeps-alloc (boxed_slice bytes) tt)
        λ p. Keeps-bind (Keeps-write_slot slot p) λ _. Keeps-pure _

  -- What a function that frees an object does.
  pub Keeps-free :
      {A : Type 0} (view : Block sdk → Option A) (p : Ptr)
      → has p ts ≡ true
      → Keeps {E = sdk.Env}
          (Has sdk S K)
          n
          ts
          (if p == null then pure tt else (do object ← from_raw view p; pure tt))
  Keeps-free view p listed =
      Keeps-if (p == null) (Keeps-pure tt)
        (Keeps-from_raw view p listed λ a k _ _ _ _. Keeps-pure tt)
