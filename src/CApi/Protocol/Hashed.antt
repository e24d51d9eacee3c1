-- ===== src/CApi/Protocol/Hashed.antt =====
-- `c2pa_builder_sign` and `c2pa_builder_sign_data_hashed_embeddable`, which take back a builder and
-- a signer (src/c_api.rs, lines 707 to 742 and 820 to 868), against the contract.
use c2pa_c.Common.{
  zero, suc, Bytes, codes, none, some, Result, ok, err, ℤ, ◌>>=◌, ◌≡◌, ◌≢◌, ◌⊎◌, inl, inr, refl,
  arith, ==_ne, ==_eq, from_utf8_lossy,
}
use c2pa_c.Error.{Error}
use c2pa_c.Error.Convert.{C2paError, from_c2pa_error}
use c2pa_c.Error.Last.{Thread}
use c2pa_c.Stream.{Ptr, CStream}
use c2pa_c.Memory.{fail_with}
use c2pa_c.Memory.Laws.{Every, IsValid, live_bounds, in_thread-returns}
use c2pa_c.Sdk.{Sdk, signer, stream, json_error_of}
use c2pa_c.CApi.{CStr, Api, minus_one, sdk_error}
use c2pa_c.CApi.Signing.{
  c2pa_builder_sign, sign_hashed, with_asset_hash, c2pa_builder_sign_data_hashed_embeddable,
}
use c2pa_c.CApi.Session.{Call, Reply, status}
use c2pa_c.CApi.Ownership.{without, take_builder, take_signer, borrow_stream, apart, cells-without}
use c2pa_c.CApi.Protocol.{
  Client, Allowed, a_builder, a_signer, a_stream, view, WithError, Fails, LosesBoth, Delivers,
  Given,
}
use c2pa_c.Sdk.Calm.{Calm, IsSound}
use c2pa_c.CApi.Protocol.Handles.{held_builder, held_signer, held_stream}
use c2pa_c.CApi.Protocol.Rules.{Memory, Runs, Runs-weaken, fail_with-code}
use c2pa_c.CApi.Protocol.Signing.{
  delivered, delivered_there, lost, not_null, separate, both_restored, both_lost,
}

module _ (sdk : Sdk) (good : sdk.Signer → Type 0) (calm : Calm sdk good) where
  module _ (w : Memory sdk) (valid : IsValid w) (sound : Every (IsSound sdk good) w) (p g : Ptr)
      (has_builder : (view w).holds.kinds p ≡ some a_builder)
      (has_signer : (view w).holds.kinds g ≡ some a_signer) where
    ne : p ≢ g
    ne = separate sdk good calm w valid sound p has_builder g has_signer

    -- A stream is still there when builder and signer are taken back.
    stream_there :
        (i : Ptr) (c : CStream sdk.Env)
        → w.cells i ≡ some (stream c)
        → (without (without w p) g).cells i ≡ some (stream c)
    stream_there i c here =
        let (b, has_b) = held_builder sdk w p has_builder in
        let (k, has_k) = held_signer sdk w g has_signer in
        let pi = apart w p i has_b here (ground arith) in
        let gi = apart w g i has_k here (ground arith) in
        cells-without (without w p) g i gi (cells-without w p i pi here)

    pub builder_sign-Allowed :
        (format : CStr) (i o v : Ptr)
        → (view w).holds.kinds i ≡ some a_stream
        → (view w).holds.kinds o ≡ some a_stream
        → i ≢ o
        → Runs sdk status
            (Allowed {sdk = sdk} (Call.builder_sign p format i o g v) (view w))
            (c2pa_builder_sign sdk p format i o g v w)
    unfolding Allowed c2pa_builder_sign
    builder_sign-Allowed none i o v has_i has_o io =
        let (b, has_b) = held_builder sdk w p has_builder in
        rw (take_builder sdk w p b has_b, ◌>>=◌) (lost sdk good calm w valid sound p has_builder _)
    builder_sign-Allowed (some format) i o v has_i has_o io =
        let (b, has_b) = held_builder sdk w p has_builder in
        let (k, has_k) = held_signer sdk w g has_signer in
        let (c, at_i) = held_stream sdk w i has_i in
        let (d, at_o) = held_stream sdk w o has_o in
        let w₂ = without (without w p) g in
        let ((r, b'), t, e) =
          calm.sign b k (from_utf8_lossy format) c d (sound g _ has_k) (sound i _ at_i)
            (sound o _ at_o) w.thread in
        rw (take_builder sdk w p b has_b, ◌>>=◌)
          (rw (take_signer sdk (without w p) g k (cells-without w p g ne has_k), ◌>>=◌)
            (rw (borrow_stream sdk w₂ i c (stream_there i c at_i), ◌>>=◌)
              (rw (==_ne i o io) (
                rw (borrow_stream sdk w₂ o d (stream_there o d at_o), ◌>>=◌)
                  (rw (in_thread-returns _ w₂ (r, b') t e, ◌>>=◌)
                    (delivered sdk w _ valid
                      (both_restored sdk good calm w valid sound p has_builder g has_signer b' k)
                      refl refl v r))))))

    module _ (b : sdk.Builder) (k : sdk.Signer) (has_k : w.cells g ≡ some (signer k)) (v : Ptr)
        (there : v ≢ 0) where
      lost_both :
          (t : Thread sdk.Env) (e : Error)
          → Runs sdk status
              (λ r s'. LosesBoth (view w) r s' p g e)
              (fail_with e minus_one (record (without (without w p) g) { thread = t }))
      lost_both = both_lost sdk good calm w valid sound p has_builder g has_signer

      signs :
          (hash : sdk.DataHash) (format : CStr) (t : Thread sdk.Env)
          → Runs sdk status
              (λ r s'.
                Given format
                  (codes "format")
                  (LosesBoth (view w) r s' p g)
                  (Delivers (view w) r s' v ⊎ WithError (Fails (view w) r s')))
              (sign_hashed sdk p g b k hash format v
                (record (without (without w p) g) { thread = t }))
      unfolding sign_hashed
      signs hash none t = lost_both t _
      signs hash (some format) t =
          let ((r, b'), t', e) =
            calm.sign_data_hashed_embeddable b k hash (from_utf8_lossy format) (sound g _ has_k)
              t in
          rw
            (
              in_thread-returns _ (record (without (without w p) g) { thread = t }) (r, b') t' e,
              ◌>>=◌,
            )
            (delivered_there sdk w _ valid
              (both_restored sdk good calm w valid sound p has_builder g has_signer b' k) refl refl
              v r there)

      -- What is left when the data hash is there.
      abbrev Hashed : CStr → Reply → Client → Type 0
      Hashed format r s' =
          WithError (LosesBoth (view w) r s' p g)
          ⊎ Given format (codes "format") (LosesBoth (view w) r s' p g)
              (Delivers (view w) r s' v ⊎ WithError (Fails (view w) r s'))

      failed :
          (format : CStr) (t : Thread sdk.Env) (e : Error)
          → Runs sdk status
              (Hashed format)
              (fail_with e minus_one (record (without (without w p) g) { thread = t }))
      failed format t e = Runs-weaken sdk (λ r s' h. inl (e, h)) (lost_both t e)

      hashes :
          (hash : sdk.DataHash) (format : CStr) (i : Ptr)
          → (i ≡ 0) ⊎ ((view w).holds.kinds i ≡ some a_stream)
          → Runs sdk status (Hashed format) (
              with_asset_hash sdk i hash
                (λ hash. sign_hashed sdk p g b k hash format v)
                (without (without w p) g))
      unfolding with_asset_hash sdk_error
      hashes hash format i (inl absent) =
          rw (==_eq i 0 absent) (Runs-weaken sdk (λ r s' h. inr h) (signs hash format w.thread))
      hashes hash format i (inr has_i) =
          let (c, at_i) = held_stream sdk w i has_i in
          let w₂ = without (without w p) g in
          let ((r, hash'), t, e) = calm.gen_hash_from_stream hash c (sound i _ at_i) w.thread in
          let (above, _) = live_bounds valid i at_i in
          let Present : i ≢ 0 = omega arith in
          rw (==_ne i 0 Present) (
            rw (borrow_stream sdk w₂ i c (stream_there i c at_i), ◌>>=◌)
              (rw (in_thread-returns _ w₂ (r, hash') t e, ◌>>=◌) (by_result r hash' t)))
        where
          by_result :
              (r : Result (Unit {0}) C2paError) (hash : sdk.DataHash) (t : Thread sdk.Env)
              → Runs sdk status (Hashed format) (
                  (elim r as (λ _. Api sdk ℤ) [
                    | ok _ ↦ sign_hashed sdk p g b k hash format v
                    | err e ↦ sdk_error sdk e minus_one
                  ])
                    (record (without (without w p) g) { thread = t }))
          by_result (ok _) hash t = Runs-weaken sdk (λ r s' h. inr h) (signs hash format t)
          by_result (err e) hash t = failed format t (from_c2pa_error e)

      parses :
          (json : Bytes) (format : CStr) (i : Ptr)
          → (i ≡ 0) ⊎ ((view w).holds.kinds i ≡ some a_stream)
          → (parsed : Result sdk.DataHash sdk.SerdeError)
          → Runs sdk status (Hashed format) (
              (elim parsed as (λ _. Api sdk ℤ) [
                | err e ↦ sdk_error sdk (json_error_of sdk e) minus_one
                | ok hash ↦
                    with_asset_hash sdk i hash (λ hash. sign_hashed sdk p g b k hash format v)
              ])
                (without (without w p) g))
      unfolding sdk_error
      parses json format i has_i (ok hash) = hashes hash format i has_i
      parses json format i has_i (err e) =
          failed format w.thread (from_c2pa_error (json_error_of sdk e))

    pub builder_sign_hashed-Allowed :
        (hash format : CStr) (i v : Ptr)
        → (i ≡ 0) ⊎ ((view w).holds.kinds i ≡ some a_stream)
        → Runs sdk status
            (Allowed {sdk = sdk} (Call.builder_sign_hashed p g hash format i v) (view w))
            (c2pa_builder_sign_data_hashed_embeddable sdk p g hash format i v w)
    unfolding Allowed c2pa_builder_sign_data_hashed_embeddable
    builder_sign_hashed-Allowed hash format i zero has_i =
        rw (==_ne p 0 (not_null sdk good calm w valid sound p has_builder))
          (fail_with-code sdk w (view w).holds refl _)
    builder_sign_hashed-Allowed none format i (suc v) has_i =
        let (b, has_b) = held_builder sdk w p has_builder in
        let (k, has_k) = held_signer sdk w g has_signer in
        let there : suc v ≢ 0 = omega arith in
        rw
          (
            ==_ne p 0 (not_null sdk good calm w valid sound p has_builder),
            ==_ne (suc v) 0 there,
            take_builder sdk w p b has_b,
            ◌>>=◌,
          )
          (rw (take_signer sdk (without w p) g k (cells-without w p g ne has_k), ◌>>=◌)
            (lost_both b k has_k (suc v) there w.thread _))
    builder_sign_hashed-Allowed (some hash) format i (suc v) has_i =
        let (b, has_b) = held_builder sdk w p has_builder in
        let (k, has_k) = held_signer sdk w g has_signer in
        let there : suc v ≢ 0 = omega arith in
        rw
          (
            ==_ne p 0 (not_null sdk good calm w valid sound p has_builder),
            ==_ne (suc v) 0 there,
            take_builder sdk w p b has_b,
            ◌>>=◌,
          )
          (rw (take_signer sdk (without w p) g k (cells-without w p g ne has_k), ◌>>=◌)
            (parses b k has_k (suc v) there (from_utf8_lossy hash) format i has_i
              (sdk.data_hash_from_str (from_utf8_lossy hash))))
