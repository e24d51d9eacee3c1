-- ===== src/CApi/Frame/Reading.antt =====
-- What the functions on a reader may touch.
use c2pa_c.Common.{ℕ, List, [], ◌∷◌, Result, ok, err, ==_refl, as_c_int}
use c2pa_c.Error.Convert.{C2paError}
use c2pa_c.Stream.{CStream, Ptr}
use c2pa_c.Memory.Frame.{
  Keeps, Keeps-pure, Keeps-in_thread, Keeps-borrow, Keeps-bind, Keeps-from_raw, Keeps-into_raw,
  Keeps-alloc,
}
use c2pa_c.Sdk.{Sdk, reader, as_reader, as_stream}
use c2pa_c.Sdk.Calm.{Has}
use c2pa_c.CApi.{CStr, null, minus_one}
use c2pa_c.CApi.Frame.{Keeps-with_cstr, Keeps-sdk_error, Keeps-to_c_string, Keeps-free}
use c2pa_c.CApi.Reading.{
  c2pa_reader_from_stream, c2pa_reader_free, c2pa_reader_json, size_or_error,
  c2pa_reader_resource_to_stream,
}

module _ (sdk : Sdk) {S : CStream sdk.Env → Type 0} {K : sdk.Signer → Type 0} where
  pub reader_from_stream-Keeps :
      (format : CStr) (s : Ptr) → Keeps (Has sdk S K) 0 [] (c2pa_reader_from_stream sdk format s)
  unfolding c2pa_reader_from_stream
  reader_from_stream-Keeps format s = Keeps-with_cstr sdk _ format null λ format.
      Keeps-bind (Keeps-borrow (as_stream sdk) s) λ source.
        Keeps-bind (Keeps-in_thread (sdk.reader_from_stream format source))
          (elim [ ok object ↦ Keeps-alloc (reader object) tt | err e ↦ Keeps-sdk_error sdk e null ])

  pub reader_free-Keeps : (p : Ptr) → Keeps (Has sdk S K) 0 (p ∷ []) (c2pa_reader_free sdk p)
  unfolding c2pa_reader_free
  reader_free-Keeps p = Keeps-free sdk (as_reader sdk) p (rw (==_refl p))

  pub reader_json-Keeps : (p : Ptr) → Keeps (Has sdk S K) 0 (p ∷ []) (c2pa_reader_json sdk p)
  unfolding c2pa_reader_json
  reader_json-Keeps p = Keeps-from_raw (as_reader sdk) p (rw (==_refl p)) λ object k _ pos lt _.
      Keeps-bind (Keeps-in_thread (sdk.reader_json object)) λ json.
        Keeps-bind (Keeps-into_raw p (reader object) tt (rw (==_refl p)) pos lt)
          λ _. Keeps-to_c_string sdk json

  size_or_error-Keeps :
      {k : ℕ} {ts : List Ptr} (r : Result ℕ C2paError)
      → Keeps (Has sdk S K) k ts (size_or_error sdk r)
  unfolding size_or_error
  size_or_error-Keeps (ok len) = Keeps-pure (as_c_int len)
  size_or_error-Keeps (err e) = Keeps-sdk_error sdk e minus_one

  pub reader_resource_to_stream-Keeps :
      (p : Ptr) (uri : CStr) (s : Ptr)
      → Keeps (Has sdk S K) 0 (p ∷ []) (c2pa_reader_resource_to_stream sdk p uri s)
  unfolding c2pa_reader_resource_to_stream
  reader_resource_to_stream-Keeps p uri s =
      Keeps-from_raw (as_reader sdk) p (rw (==_refl p)) λ object k _ pos lt _.
        Keeps-with_cstr sdk _ uri minus_one λ uri.
          Keeps-bind (Keeps-borrow (as_stream sdk) s) λ dest.
            Keeps-bind (Keeps-in_thread (sdk.reader_resource_to_stream object uri dest)) λ r.
              Keeps-bind (Keeps-into_raw p (reader object) tt (rw (==_refl p)) pos lt)
                λ _. size_or_error-Keeps r
