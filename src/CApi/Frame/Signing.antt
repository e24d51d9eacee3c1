-- ===== src/CApi/Frame/Signing.antt =====
-- What the functions that sign may touch.
use c2pa_c.Common.{
  ℕ, ◌<◌, Bytes, List, [], ◌∷◌, Option, none, some, Result, ok, err, ℤ, ==_refl, ◌==◌, arith,
  length,
}
use c2pa_c.Error.Convert.{C2paError}
use c2pa_c.Stream.{CStream, Ptr}
use c2pa_c.Memory.Frame.{
  Keeps, Keeps-pure, Keeps-fault, Keeps-if, Keeps-in_thread, Keeps-fail_with, Keeps-borrow,
  Keeps-bind, Keeps-from_raw, Keeps-into_raw, Seen,
}
use c2pa_c.Sdk.{
  Sdk, builder, signer, as_builder, as_signer, as_stream, as_boxed_slice, json_error_of,
}
use c2pa_c.Sdk.Calm.{Has}
use c2pa_c.CApi.{CStr, Api, null, minus_one, sdk_error}
use c2pa_c.CApi.Frame.{
  signer_has, Keeps-with_cstr, Keeps-null_check, Keeps-sdk_error, Keeps-give_bytes,
}
use c2pa_c.CApi.Signing.{
  bytes_or_error, optional_bytes_or_error, c2pa_builder_sign, free_one_byte,
  c2pa_builder_data_hashed_placeholder, sign_hashed, with_asset_hash,
  c2pa_builder_sign_data_hashed_embeddable, c2pa_format_embeddable,
}

module _ (sdk : Sdk) {S : CStream sdk.Env → Type 0} {K : sdk.Signer → Type 0} where
  bytes_or_error-Keeps :
      {k : ℕ} {ts : List Ptr} (slot : Ptr) (r : Result Bytes C2paError)
      → Keeps (Has sdk S K) k ts (bytes_or_error sdk slot r)
  unfolding bytes_or_error
  bytes_or_error-Keeps slot (ok bytes) = Keeps-give_bytes sdk slot bytes
  bytes_or_error-Keeps slot (err e) = Keeps-sdk_error sdk e minus_one

  optional_bytes_or_error-Keeps :
      {k : ℕ} {ts : List Ptr} (slot : Ptr) (r : Result Bytes C2paError)
      → Keeps (Has sdk S K) k ts (optional_bytes_or_error sdk slot r)
  unfolding optional_bytes_or_error
  optional_bytes_or_error-Keeps slot (ok bytes) =
      Keeps-if (slot == null) (Keeps-pure _) (Keeps-give_bytes sdk slot bytes)
  optional_bytes_or_error-Keeps slot (err e) = Keeps-sdk_error sdk e minus_one

  pub builder_sign-Keeps :
      (p : Ptr) (format : CStr) (source dest signer_ptr slot : Ptr)
      → Keeps
          (Has sdk S K)
          0
          (p ∷ signer_ptr ∷ [])
          (c2pa_builder_sign sdk p format source dest signer_ptr slot)
  unfolding c2pa_builder_sign
  builder_sign-Keeps p format source dest signer_ptr slot =
      Keeps-from_raw (as_builder sdk) p (ground arith) λ object k _ pos lt _.
        Keeps-with_cstr sdk _ format minus_one λ format.
          Keeps-from_raw (as_signer sdk) signer_ptr (ground arith) λ c2pa_signer m le pos' lt' seen.
            Keeps-bind (Keeps-borrow (as_stream sdk) source) λ input.
              Keeps-bind (Keeps-if (source == dest) Keeps-fault (Keeps-borrow (as_stream sdk) dest))
                λ output.
                  Keeps-bind (Keeps-in_thread (sdk.sign object c2pa_signer format input output))
                    λ (r, object').
                      Keeps-bind
                        (Keeps-into_raw signer_ptr (signer c2pa_signer) (signer_has sdk seen)
                          (ground arith) pos' lt')
                        λ _.
                          Keeps-bind
                            (Keeps-into_raw p (builder object') tt (ground arith) pos (omega arith))
                            λ _. optional_bytes_or_error-Keeps slot r

  pub free_one_byte-Keeps : (p : Ptr) → Keeps (Has sdk S K) 0 (p ∷ []) (free_one_byte sdk p)
  unfolding free_one_byte
  free_one_byte-Keeps p = Keeps-if (p == null) (Keeps-pure tt) (
      Keeps-from_raw (as_boxed_slice sdk) p (rw (==_refl p))
        λ bytes k _ _ _ _. Keeps-if (length bytes == 1) (Keeps-pure tt) Keeps-fault)

  pub data_hashed_placeholder-Keeps :
      (p : Ptr) (reserved : ℕ) (format : CStr) (slot : Ptr)
      → Keeps
          (Has sdk S K)
          0
          (p ∷ [])
          (c2pa_builder_data_hashed_placeholder sdk p reserved format slot)
  unfolding c2pa_builder_data_hashed_placeholder
  data_hashed_placeholder-Keeps p reserved format slot = Keeps-null_check sdk _ p minus_one (
      Keeps-null_check sdk _ slot minus_one (
        Keeps-from_raw (as_builder sdk) p (rw (==_refl p)) λ object k _ pos lt _.
          Keeps-with_cstr sdk _ format minus_one λ format.
            Keeps-bind (Keeps-in_thread (sdk.data_hashed_placeholder object reserved format))
              λ (r, object').
                Keeps-bind (Keeps-into_raw p (builder object') tt (rw (==_refl p)) pos lt)
                  λ _. bytes_or_error-Keeps slot r))

  sign_hashed-Keeps :
      {k : ℕ} (p signer_ptr : Ptr) (object : sdk.Builder) (c2pa_signer : sdk.Signer)
      (hash : sdk.DataHash) (format : CStr) (slot : Ptr)
      → 0 < p
      → p < k
      → 0 < signer_ptr
      → signer_ptr < k
      → Seen (Has sdk S K) (as_signer sdk) c2pa_signer
      → Keeps
          (Has sdk S K)
          k
          (p ∷ signer_ptr ∷ [])
          (sign_hashed sdk p signer_ptr object c2pa_signer hash format slot)
  unfolding sign_hashed
  sign_hashed-Keeps p signer_ptr object c2pa_signer hash format slot pos lt pos' lt' seen =
      Keeps-with_cstr sdk _ format minus_one λ format.
        Keeps-bind
          (Keeps-in_thread (sdk.sign_data_hashed_embeddable object c2pa_signer hash format))
          λ (r, object').
            Keeps-bind
              (Keeps-into_raw signer_ptr (signer c2pa_signer) (signer_has sdk seen) (ground arith)
                pos' lt')
              λ _.
                Keeps-bind (Keeps-into_raw p (builder object') tt (ground arith) pos lt)
                  λ _. bytes_or_error-Keeps slot r

  with_asset_hash-Keeps :
      {k : ℕ} {ts : List Ptr} (asset : Ptr) (hash : sdk.DataHash) {rest : sdk.DataHash → Api sdk ℤ}
      → ((hash' : sdk.DataHash) → Keeps (Has sdk S K) k ts (rest hash'))
      → Keeps (Has sdk S K) k ts (with_asset_hash sdk asset hash rest)
  unfolding with_asset_hash
  with_asset_hash-Keeps {k} {ts} asset hash {rest} h = Keeps-if (asset == null) (h hash) (
      Keeps-bind (Keeps-borrow (as_stream sdk) asset) λ source.
        Keeps-bind (Keeps-in_thread (sdk.gen_hash_from_stream hash source))
          λ (r, hash'). after r hash')
    where
      after :
          (r : Result (Unit {0}) C2paError) (hash' : sdk.DataHash)
          → Keeps
              (Has sdk S K)
              k
              ts
              (elim r [ ok _ ↦ rest hash' | err e ↦ sdk_error sdk e minus_one ])
      after (ok _) hash' = h hash'
      after (err e) hash' = Keeps-sdk_error sdk e minus_one

  pub sign_data_hashed-Keeps :
      (p signer_ptr : Ptr) (hash format : CStr) (asset slot : Ptr)
      → Keeps
          (Has sdk S K)
          0
          (p ∷ signer_ptr ∷ [])
          (c2pa_builder_sign_data_hashed_embeddable sdk p signer_ptr hash format asset slot)
  unfolding c2pa_builder_sign_data_hashed_embeddable
  sign_data_hashed-Keeps p signer_ptr hash format asset slot = Keeps-null_check sdk _ p minus_one (
      Keeps-null_check sdk _ slot minus_one (
        Keeps-from_raw (as_builder sdk) p (ground arith) λ object k _ pos lt _.
          Keeps-from_raw (as_signer sdk) signer_ptr (ground arith) λ c2pa_signer m le pos' lt' seen.
            Keeps-with_cstr sdk _ hash minus_one λ text.
              parsed object c2pa_signer pos (omega arith) pos' lt' seen
                (sdk.data_hash_from_str text)))
    where
      parsed :
          {k : ℕ} (object : sdk.Builder) (c2pa_signer : sdk.Signer)
          → 0 < p
          → p < k
          → 0 < signer_ptr
          → signer_ptr < k
          → Seen (Has sdk S K) (as_signer sdk) c2pa_signer
          → (r : Result sdk.DataHash sdk.SerdeError)
          → Keeps (Has sdk S K) k (p ∷ signer_ptr ∷ []) (elim r [
            | err e ↦ sdk_error sdk (json_error_of sdk e) minus_one
            | ok hash' ↦
                with_asset_hash sdk asset hash'
                  λ hash'. sign_hashed sdk p signer_ptr object c2pa_signer hash' format slot
          ])
      parsed object c2pa_signer pos lt pos' lt' seen (err e) = Keeps-sdk_error sdk _ minus_one
      parsed object c2pa_signer pos lt pos' lt' seen (ok hash') =
          with_asset_hash-Keeps asset hash' λ hash''.
            sign_hashed-Keeps p signer_ptr object c2pa_signer hash'' format slot pos lt pos' lt'
              seen

  pub format_embeddable-Keeps :
      (format : CStr) (bytes : Option Bytes) (slot : Ptr)
      → Keeps (Has sdk S K) 0 [] (c2pa_format_embeddable sdk format bytes slot)
  unfolding c2pa_format_embeddable
  format_embeddable-Keeps format none slot = Keeps-fail_with _ minus_one
  format_embeddable-Keeps format (some bytes) slot = Keeps-null_check sdk _ slot minus_one (
      Keeps-with_cstr sdk _ format minus_one λ format.
        Keeps-bind (Keeps-in_thread (sdk.composed_manifest bytes format))
          λ r. bytes_or_error-Keeps slot r)
