-- ===== src/CApi/Frame/Building.antt =====
-- What the functions that make and fill a builder may touch.
use c2pa_c.Common.{ℕ, ◌<◌, [], ◌∷◌, Result, ok, err, ==_refl, pos}
use c2pa_c.Error.Convert.{C2paError}
use c2pa_c.Stream.{CStream, Ptr}
use c2pa_c.Memory.Frame.{
  Keeps, Keeps-pure, Keeps-in_thread, Keeps-borrow, Keeps-bind, Keeps-from_raw, Keeps-into_raw,
  Keeps-alloc,
}
use c2pa_c.Sdk.{Sdk, builder, as_builder, as_stream}
use c2pa_c.Sdk.Calm.{Has}
use c2pa_c.CApi.{CStr, null, minus_one}
use c2pa_c.CApi.Frame.{Keeps-with_cstr, Keeps-sdk_error, Keeps-free}
use c2pa_c.CApi.Building.{
  c2pa_builder_from_json, c2pa_builder_from_archive, c2pa_builder_free, c2pa_builder_set_no_embed,
  c2pa_builder_set_remote_url, keep_or_drop, c2pa_builder_add_resource,
  c2pa_builder_add_ingredient_from_stream, c2pa_builder_to_archive,
}

module _ (sdk : Sdk) {S : CStream sdk.Env → Type 0} {K : sdk.Signer → Type 0} where
  pub builder_from_json-Keeps :
      (json : CStr) → Keeps (Has sdk S K) 0 [] (c2pa_builder_from_json sdk json)
  unfolding c2pa_builder_from_json
  builder_from_json-Keeps json = Keeps-with_cstr sdk _ json null λ json.
      Keeps-bind (Keeps-in_thread (sdk.builder_from_json json))
        (elim [ ok object ↦ Keeps-alloc (builder object) tt | err e ↦ Keeps-sdk_error sdk e null ])

  pub builder_from_archive-Keeps :
      (s : Ptr) → Keeps (Has sdk S K) 0 [] (c2pa_builder_from_archive sdk s)
  unfolding c2pa_builder_from_archive
  builder_from_archive-Keeps s = Keeps-bind (Keeps-borrow (as_stream sdk) s) λ source.
      Keeps-bind (Keeps-in_thread (sdk.builder_from_archive source))
        (elim [ ok object ↦ Keeps-alloc (builder object) tt | err e ↦ Keeps-sdk_error sdk e null ])

  pub builder_free-Keeps : (p : Ptr) → Keeps (Has sdk S K) 0 (p ∷ []) (c2pa_builder_free sdk p)
  unfolding c2pa_builder_free
  builder_free-Keeps p = Keeps-free sdk (as_builder sdk) p (rw (==_refl p))

  pub builder_set_no_embed-Keeps :
      (p : Ptr) → Keeps (Has sdk S K) 0 (p ∷ []) (c2pa_builder_set_no_embed sdk p)
  unfolding c2pa_builder_set_no_embed
  builder_set_no_embed-Keeps p =
      Keeps-from_raw (as_builder sdk) p (rw (==_refl p)) λ object k _ lo lt _.
        Keeps-bind (Keeps-in_thread (sdk.set_no_embed object))
          λ object'. Keeps-into_raw p (builder object') tt (rw (==_refl p)) lo lt

  pub builder_set_remote_url-Keeps :
      (p : Ptr) (url : CStr)
      → Keeps (Has sdk S K) 0 (p ∷ []) (c2pa_builder_set_remote_url sdk p url)
  unfolding c2pa_builder_set_remote_url
  builder_set_remote_url-Keeps p url =
      Keeps-from_raw (as_builder sdk) p (rw (==_refl p)) λ object k _ lo lt _.
        Keeps-with_cstr sdk _ url minus_one λ url.
          Keeps-bind (Keeps-in_thread (sdk.set_remote_url object url)) λ object'.
            Keeps-bind (Keeps-into_raw p (builder object') tt (rw (==_refl p)) lo lt)
              λ _. Keeps-pure (pos 0)

  keep_or_drop-Keeps :
      {k : ℕ} (p : Ptr) (object : sdk.Builder) (r : Result (Unit {0}) C2paError)
      → 0 < p
      → p < k
      → Keeps (Has sdk S K) k (p ∷ []) (keep_or_drop sdk p object r)
  unfolding keep_or_drop
  keep_or_drop-Keeps p object (ok _) lo lt =
      Keeps-bind (Keeps-into_raw p (builder object) tt (rw (==_refl p)) lo lt)
        λ _. Keeps-pure (pos 0)
  keep_or_drop-Keeps p object (err e) lo lt = Keeps-sdk_error sdk e minus_one

  pub builder_add_resource-Keeps :
      (p : Ptr) (uri : CStr) (s : Ptr)
      → Keeps (Has sdk S K) 0 (p ∷ []) (c2pa_builder_add_resource sdk p uri s)
  unfolding c2pa_builder_add_resource
  builder_add_resource-Keeps p uri s =
      Keeps-from_raw (as_builder sdk) p (rw (==_refl p)) λ object k _ lo lt _.
        Keeps-with_cstr sdk _ uri minus_one λ uri.
          Keeps-bind (Keeps-borrow (as_stream sdk) s) λ source.
            Keeps-bind (Keeps-in_thread (sdk.add_resource object uri source))
              λ (r, object'). keep_or_drop-Keeps p object' r lo lt

  pub builder_add_ingredient-Keeps :
      (p : Ptr) (json format : CStr) (s : Ptr)
      → Keeps (Has sdk S K) 0 (p ∷ []) (c2pa_builder_add_ingredient_from_stream sdk p json format s)
  unfolding c2pa_builder_add_ingredient_from_stream
  builder_add_ingredient-Keeps p json format s =
      Keeps-from_raw (as_builder sdk) p (rw (==_refl p)) λ object k _ lo lt _.
        Keeps-with_cstr sdk _ json minus_one λ json.
          Keeps-with_cstr sdk _ format minus_one λ format.
            Keeps-bind (Keeps-borrow (as_stream sdk) s) λ asset.
              Keeps-bind (Keeps-in_thread (sdk.add_ingredient_from_stream object json format asset))
                λ (r, object'). keep_or_drop-Keeps p object' r lo lt

  pub builder_to_archive-Keeps :
      (p s : Ptr) → Keeps (Has sdk S K) 0 (p ∷ []) (c2pa_builder_to_archive sdk p s)
  unfolding c2pa_builder_to_archive
  builder_to_archive-Keeps p s =
      Keeps-from_raw (as_builder sdk) p (rw (==_refl p)) λ object k _ lo lt _.
        Keeps-bind (Keeps-borrow (as_stream sdk) s) λ dest.
          Keeps-bind (Keeps-in_thread (sdk.to_archive object dest))
            λ (r, object'). keep_or_drop-Keeps p object' r lo lt
