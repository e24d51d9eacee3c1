-- ===== src/CApi/Protocol/Reading.antt =====
-- The functions on a reader (src/c_api.rs, lines 365 to 471) against the contract.
use c2pa_c.Common.{
  ℕ, none, some, Result, ok, err, as_c_int, ◌>>=◌, ◌≡◌, ◌⊎◌, inl, inr, refl, arith, from_utf8_lossy,
}
use c2pa_c.Error.Convert.{C2paError, from_c2pa_error}
use c2pa_c.Stream.{Ptr}
use c2pa_c.Memory.Laws.{Every, IsValid, in_thread-returns}
use c2pa_c.Sdk.{Sdk, reader}
use c2pa_c.CApi.{CStr}
use c2pa_c.CApi.Reading.{
  c2pa_reader_from_stream, c2pa_reader_json, size_or_error, c2pa_reader_resource_to_stream,
}
use c2pa_c.CApi.Session.{Call, pointer, status}
use c2pa_c.CApi.Ownership.{without, take_reader, borrow_stream, cells-without, apart}
use c2pa_c.CApi.Protocol.{Ready, Allowed, view, WithError, Counts, Fails}
use c2pa_c.Sdk.Calm.{Calm, IsSound}
use c2pa_c.CApi.Protocol.Handles.{held_reader, held_stream}
use c2pa_c.CApi.Protocol.Rules.{
  Memory, Runs, Runs-weaken, made-Makes, to_c_string-Says, fail_with-code, fail_with-null,
  without-holds, restored, holdings_eq,
}

module _ (sdk : Sdk) (good : sdk.Signer → Type 0) (calm : Calm sdk good) where
  module _ (w : Memory sdk) (valid : IsValid w) (sound : Every (IsSound sdk good) w) where
    pub reader_from_stream-Allowed :
        (f : CStr) (i : Ptr)
        → Ready {sdk = sdk} (Call.reader_from_stream f i) (view w)
        → Runs sdk pointer
            (Allowed {sdk = sdk} (Call.reader_from_stream f i) (view w))
            (c2pa_reader_from_stream sdk f i w)
    unfolding Ready Allowed c2pa_reader_from_stream
    reader_from_stream-Allowed none i ready = fail_with-null sdk w (view w).holds refl _
    reader_from_stream-Allowed (some f) i ready =
        let (c, here) = held_stream sdk w i ready in
        let (r, t, e) = calm.reader_from_stream (from_utf8_lossy f) c (sound i _ here) w.thread in
        rw (borrow_stream sdk w i c here, ◌>>=◌)
          (rw (in_thread-returns _ w r t e, ◌>>=◌)
            (made-Makes sdk w valid reader _ t r (λ x. refl)))

    pub reader_json-Allowed :
        (p : Ptr)
        → Ready {sdk = sdk} (Call.reader_json p) (view w)
        → Runs sdk pointer
            (Allowed {sdk = sdk} (Call.reader_json p) (view w))
            (c2pa_reader_json sdk p w)
    unfolding Ready Allowed c2pa_reader_json
    reader_json-Allowed p ready =
        let (x, here) = held_reader sdk w p ready in
        let (json, t, e) = calm.reader_json x w.thread in
        rw (take_reader sdk w p x here, ◌>>=◌)
          (rw (in_thread-returns _ (without w p) json t e, ◌>>=◌)
            (Runs-weaken sdk (λ r s' h. (json, h.0))
              (to_c_string-Says sdk w _ valid (restored sdk w p (reader x) ready) refl refl json)))

    size_or_error-Counts :
        (u : Memory sdk) (r : Result ℕ C2paError)
        → (view u).holds ≡ (view w).holds
        → Runs sdk status
            (λ r s'. Counts (view w) r s' as_c_int ⊎ WithError (Fails (view w) r s'))
            (size_or_error sdk r u)
    unfolding size_or_error
    size_or_error-Counts u (ok n) same = record {
      result = as_c_int n;
      after = u;
      ran = refl;
      meets = inl (n, refl, same);
    }
    size_or_error-Counts u (err e) same =
        Runs-weaken sdk (λ r s' h. inr (from_c2pa_error e, h))
          (fail_with-code sdk u (view w).holds same (from_c2pa_error e))

    pub reader_resource_to_stream-Allowed :
        (p : Ptr) (uri : CStr) (o : Ptr)
        → Ready {sdk = sdk} (Call.reader_resource_to_stream p uri o) (view w)
        → Runs sdk status
            (Allowed {sdk = sdk} (Call.reader_resource_to_stream p uri o) (view w))
            (c2pa_reader_resource_to_stream sdk p uri o w)
    unfolding Ready Allowed c2pa_reader_resource_to_stream
    reader_resource_to_stream-Allowed p none o ready =
        let (x, here) = held_reader sdk w p ready.0 in
        rw (take_reader sdk w p x here, ◌>>=◌)
          (fail_with-code sdk (without w p) _ (without-holds sdk w p) _)
    reader_resource_to_stream-Allowed p (some uri) o ready =
        let (x, here) = held_reader sdk w p ready.0 in
        let (c, there) = held_stream sdk w o ready.1 in
        let ne = apart w p o here there (ground arith) in
        let (r, t, e) =
          calm.reader_resource_to_stream x (from_utf8_lossy uri) c (sound o _ there) w.thread in
        rw (take_reader sdk w p x here, ◌>>=◌)
          (rw (borrow_stream sdk (without w p) o c (cells-without w p o ne there), ◌>>=◌)
            (rw (in_thread-returns _ (without w p) r t e, ◌>>=◌)
              (size_or_error-Counts _ r (holdings_eq (restored sdk w p (reader x) ready.0) refl))))
