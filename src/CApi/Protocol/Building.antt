-- ===== src/CApi/Protocol/Building.antt =====
-- The functions that make and fill a builder (src/c_api.rs, lines 473 to 711) against the contract.
use c2pa_c.Common.{
  Bytes, none, some, Result, ok, err, pos, ◌>>=◌, ◌≡◌, ◌⊎◌, inl, inr, refl, arith, from_utf8_lossy,
}
use c2pa_c.Error.{null_parameter}
use c2pa_c.Error.Last.{Thread}
use c2pa_c.Error.Convert.{C2paError, from_c2pa_error}
use c2pa_c.Stream.{Ptr, CStream}
use c2pa_c.Memory.{from_raw, borrow, in_thread, fail_with}
use c2pa_c.Memory.Laws.{Every, IsValid, in_thread-returns}
use c2pa_c.Sdk.{Sdk, Io, builder, as_builder, as_stream}
use c2pa_c.CApi.{CStr, minus_one}
use c2pa_c.CApi.Building.{
  c2pa_builder_from_json, c2pa_builder_from_archive, c2pa_builder_free, c2pa_builder_set_no_embed,
  c2pa_builder_set_remote_url, keep_or_drop, c2pa_builder_add_resource,
  c2pa_builder_add_ingredient_from_stream, c2pa_builder_to_archive,
}
use c2pa_c.CApi.Session.{Call, pointer, status, done}
use c2pa_c.CApi.Ownership.{without, take_builder, borrow_stream, cells-without, apart}
use c2pa_c.CApi.Protocol.{Ready, Allowed, a_builder, a_stream, view, WithError, Succeeds, Loses}
use c2pa_c.Sdk.Calm.{Calm, Answers, Answering, IsSound}
use c2pa_c.CApi.Protocol.Handles.{held_builder, held_stream}
use c2pa_c.CApi.Protocol.Rules.{
  Memory, Runs, Runs-weaken, made-Makes, fail_with-code, fail_with-null, without-holds, restored,
  holdings_eq, free-Frees, free-Frees_null,
}

module _ (sdk : Sdk) (good : sdk.Signer → Type 0) (calm : Calm sdk good) where
  module _ (w : Memory sdk) (valid : IsValid w) (sound : Every (IsSound sdk good) w) where
    pub builder_from_json-Allowed :
        (json : CStr)
        → Runs sdk pointer
            (Allowed {sdk = sdk} (Call.builder_from_json json) (view w))
            (c2pa_builder_from_json sdk json w)
    unfolding Allowed c2pa_builder_from_json
    builder_from_json-Allowed none = fail_with-null sdk w (view w).holds refl _
    builder_from_json-Allowed (some json) =
        let (r, t, e) = calm.builder_from_json (from_utf8_lossy json) w.thread in
        rw (in_thread-returns _ w r t e, ◌>>=◌) (made-Makes sdk w valid builder _ t r (λ x. refl))

    pub builder_from_archive-Allowed :
        (i : Ptr)
        → Ready {sdk = sdk} (Call.builder_from_archive i) (view w)
        → Runs sdk pointer
            (Allowed {sdk = sdk} (Call.builder_from_archive i) (view w))
            (c2pa_builder_from_archive sdk i w)
    unfolding Ready Allowed c2pa_builder_from_archive
    builder_from_archive-Allowed i ready =
        let (c, here) = held_stream sdk w i ready in
        let (r, t, e) = calm.builder_from_archive c (sound i _ here) w.thread in
        rw (borrow_stream sdk w i c here, ◌>>=◌)
          (rw (in_thread-returns _ w r t e, ◌>>=◌)
            (made-Makes sdk w valid builder _ t r (λ x. refl)))

    pub builder_free-Allowed :
        (p : Ptr)
        → Ready {sdk = sdk} (Call.builder_free p) (view w)
        → Runs sdk
            (λ _. done)
            (Allowed {sdk = sdk} (Call.builder_free p) (view w))
            (c2pa_builder_free sdk p w)
    unfolding Ready Allowed c2pa_builder_free as_builder
    builder_free-Allowed p (inl e) = free-Frees_null sdk w valid p _ e
    builder_free-Allowed p (inr ready) =
        let (b, here) = held_builder sdk w p ready in
        free-Frees sdk w valid p (as_builder sdk) b here (rw here refl)

    module _ (p : Ptr) (ready : (view w).holds.kinds p ≡ some a_builder) where
      pub builder_set_no_embed-Allowed :
          Runs sdk
            (λ _. done)
            (Allowed {sdk = sdk} (Call.builder_set_no_embed p) (view w))
            (c2pa_builder_set_no_embed sdk p w)
      unfolding Allowed c2pa_builder_set_no_embed
      builder_set_no_embed-Allowed =
          let (b, here) = held_builder sdk w p ready in
          let (b', t, e) = calm.set_no_embed b w.thread in
          rw (take_builder sdk w p b here, ◌>>=◌)
            (rw (in_thread-returns _ (without w p) b' t e, ◌>>=◌)
              (record {
                result = tt;
                after = _;
                ran = refl;
                meets = (refl, holdings_eq (restored sdk w p (builder b') ready) refl);
              }))

      lost :
          (name : Bytes)
          → Runs sdk status
              (λ r s'. Loses (view w) r s' p (null_parameter name))
              (fail_with (null_parameter name) minus_one (without w p))
      lost name = fail_with-code sdk (without w p) _ (without-holds sdk w p) (null_parameter name)

      pub builder_set_remote_url-Allowed :
          (url : CStr)
          → Runs sdk status
              (Allowed {sdk = sdk} (Call.builder_set_remote_url p url) (view w))
              (c2pa_builder_set_remote_url sdk p url w)
      unfolding Allowed c2pa_builder_set_remote_url
      builder_set_remote_url-Allowed none =
          let (b, here) = held_builder sdk w p ready in
          rw (take_builder sdk w p b here, ◌>>=◌) (lost _)
      builder_set_remote_url-Allowed (some url) =
          let (b, here) = held_builder sdk w p ready in
          let (b', t, e) = calm.set_remote_url b (from_utf8_lossy url) w.thread in
          rw (take_builder sdk w p b here, ◌>>=◌)
            (rw (in_thread-returns _ (without w p) b' t e, ◌>>=◌)
              (record {
                result = pos 0;
                after = _;
                ran = refl;
                meets = (refl, holdings_eq (restored sdk w p (builder b') ready) refl);
              }))

      keep_or_drop-Loses :
          (t : Thread sdk.Env) (b : sdk.Builder) (r : Result (Unit {0}) C2paError)
          → Runs sdk status
              (λ r s'. Succeeds (view w) r s' ⊎ WithError (Loses (view w) r s' p))
              (keep_or_drop sdk p b r (record (without w p) { thread = t }))
      unfolding keep_or_drop
      keep_or_drop-Loses t b (ok _) = record {
        result = pos 0;
        after = _;
        ran = refl;
        meets = inl (refl, holdings_eq (restored sdk w p (builder b) ready) refl);
      }
      keep_or_drop-Loses t b (err e) =
          Runs-weaken sdk (λ r s' h. inr (from_c2pa_error e, h))
            (fail_with-code sdk (record (without w p) { thread = t }) _ (without-holds sdk w p)
              (from_c2pa_error e))

      module _ (i : Ptr) (readable : (view w).holds.kinds i ≡ some a_stream) where
        -- What the three functions that fill a builder do once their texts are there.
        filled :
            (fill : sdk.Builder
              → CStream sdk.Env
              → Io sdk.Env (Result (Unit {0}) C2paError × sdk.Builder))
            → ((b : sdk.Builder) (c : CStream sdk.Env) → Answering c → Answers (fill b c))
            → Runs sdk status
                (λ r s'. Succeeds (view w) r s' ⊎ WithError (Loses (view w) r s' p))
                ((do
                  object ← from_raw (as_builder sdk) p
                  source ← borrow (as_stream sdk) i
                  (result, object') ← in_thread (fill object source)
                  keep_or_drop sdk p object' result)
                  w)
        filled fill answers =
            let (b, here) = held_builder sdk w p ready in
            let (c, there) = held_stream sdk w i readable in
            let ne = apart w p i here there (ground arith) in
            let ((r, b'), t, e) = answers b c (sound i _ there) w.thread in
            rw (take_builder sdk w p b here, ◌>>=◌)
              (rw (borrow_stream sdk (without w p) i c (cells-without w p i ne there), ◌>>=◌)
                (rw (in_thread-returns _ (without w p) (r, b') t e, ◌>>=◌)
                  (keep_or_drop-Loses t b' r)))

        pub builder_add_resource-Allowed :
            (uri : CStr)
            → Runs sdk status
                (Allowed {sdk = sdk} (Call.builder_add_resource p uri i) (view w))
                (c2pa_builder_add_resource sdk p uri i w)
        unfolding Allowed c2pa_builder_add_resource
        builder_add_resource-Allowed none =
            let (b, here) = held_builder sdk w p ready in
            rw (take_builder sdk w p b here, ◌>>=◌) (lost _)
        builder_add_resource-Allowed (some uri) =
            filled (λ b c. sdk.add_resource b (from_utf8_lossy uri) c)
              (λ b c a. calm.add_resource b (from_utf8_lossy uri) c a)

        pub builder_add_ingredient-Allowed :
            (json f : CStr)
            → Runs sdk status
                (Allowed {sdk = sdk} (Call.builder_add_ingredient p json f i) (view w))
                (c2pa_builder_add_ingredient_from_stream sdk p json f i w)
        unfolding Allowed c2pa_builder_add_ingredient_from_stream
        builder_add_ingredient-Allowed none f =
            let (b, here) = held_builder sdk w p ready in
            rw (take_builder sdk w p b here, ◌>>=◌) (lost _)
        builder_add_ingredient-Allowed (some json) none =
            let (b, here) = held_builder sdk w p ready in
            rw (take_builder sdk w p b here, ◌>>=◌) (lost _)
        builder_add_ingredient-Allowed (some json) (some f) =
            filled
              (λ b c. sdk.add_ingredient_from_stream b (from_utf8_lossy json) (from_utf8_lossy f) c)
              (λ b c a.
                calm.add_ingredient_from_stream b (from_utf8_lossy json) (from_utf8_lossy f) c a)

        pub builder_to_archive-Allowed :
            Runs sdk status
              (Allowed {sdk = sdk} (Call.builder_to_archive p i) (view w))
              (c2pa_builder_to_archive sdk p i w)
        unfolding Allowed c2pa_builder_to_archive
        builder_to_archive-Allowed = filled sdk.to_archive (λ b c a. calm.to_archive b c a)
