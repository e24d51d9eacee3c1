-- ===== src/Cpp/Reader/Members.antt =====
-- The constructor and the members of `Reader` (src/c2pa.cpp, lines 454 to 516), over the contract
-- of the C interface.
use c2pa_c.Common.{
  ℕ, Bytes, Bool, true, false, none, some, Option, Result, ok, err, ℤ, pure, ◌≡◌, ◌≢◌, ◌⊎◌, ◌∙◌,
  refl, sym, ap, inl, inr, if◌then◌else◌, ◌==◌, ==_ne, is_negative, as_c_int,
}
use c2pa_c.Error.{Error}
use c2pa_c.Stream.{Ptr}
use c2pa_c.Sdk.{Sdk}
use c2pa_c.Sdk.Calm.{Answering}
use c2pa_c.CApi.{null, has_zero}
use c2pa_c.CApi.Reading.{c2pa_reader_from_stream, c2pa_reader_json, c2pa_reader_resource_to_stream}
use c2pa_c.CApi.Streams.{c2pa_create_stream}
use c2pa_c.CApi.Session.{Call, pointer, status, perform}
use c2pa_c.CApi.Protocol.{
  a_reader, a_stream, Holdings, Client, with_kind, Ready, Allowed, Makes, Fails, FailsNull,
  WithError, view,
}
use c2pa_c.CApi.Protocol.Clients.{with_kind-at, with_kind-other, new_apart}
use c2pa_c.CApi.Protocol.Rules.{Memory}
use c2pa_c.Cpp.{c_str, throw, string_or_throw}
use c2pa_c.Cpp.Ends.{Hosted, what_of, IsCalm, Ends, Ends-pure, Ends-bind, Ends-weaken, Ends-call}
use c2pa_c.Cpp.Texts.{address, made_at, throw-Throws, throw-Ends, string_or_throw-Ends}
use c2pa_c.Cpp.Iostream.{Iostream, cpp_istream, cpp_ostream}
use c2pa_c.Cpp.Scope.Streams.{with_stream-Ends}
use c2pa_c.Cpp.Reader.{CppReader, reader_new, json, get_resource}

-- The constructor gives a reader and its stream, at two new addresses; or it throws, and the stream
-- is left at a new address that nobody knows.
abbrev pub Opened :
    (null_text : Bytes) → Holdings → Result CppReader Bytes → Holdings → Option Error → Type 0
Opened null_text before r after error =
    ((o : CppReader) × (r ≡ ok o)
      × (before.kinds o.cpp_stream ≡ none)
      × ((with_kind before o.cpp_stream (some a_stream)).kinds o.c2pa_reader ≡ none)
      × (after
          ≡ with_kind (with_kind before o.cpp_stream (some a_stream)) o.c2pa_reader
              (some a_reader)))
    ⊎ ((e : Error) × (p : Ptr) × (r ≡ err (what_of null_text (some e)))
        × (before.kinds p ≡ none)
        × (after ≡ with_kind before p (some a_stream))
        × (error ≡ some e))

outcome_Same :
    (s : Client) (result : ℤ) (s' : Client)
    → ((n : ℕ) × (status result ≡ status (as_c_int n)) × (s'.holds ≡ s.holds))
      ⊎ WithError (Fails s (status result) s')
    → s'.holds ≡ s.holds
outcome_Same s result s' (inl (n, _, same)) = same
outcome_Same s result s' (inr (e, (_, same, _))) = same

module _ (sdk : Sdk) (good : sdk.Signer → Type 0) (host : Hosted sdk good) where
  -- After the call that makes the reader.
  made_or_thrown :
      (before : Holdings) (p : Ptr) (s : Client) (q : Ptr) (u : Memory sdk)
      → IsCalm sdk good u
      → before.kinds p ≡ none
      → s.holds ≡ with_kind before p (some a_stream)
      → Makes s (pointer q) (view u) a_reader ⊎ WithError (FailsNull s (pointer q) (view u))
      → Ends sdk good
          (λ r c. Opened host.null_text before r c.holds c.error)
          (if q == null then throw sdk else pure (ok (record { c2pa_reader = q; cpp_stream = p })))
          u
  made_or_thrown before p s q u v free made (inl makes) =
      let (ne, new, there) = made_at a_reader s (view u) q makes in
      rw (==_ne q 0 ne) (
        Ends-pure sdk good (ok (record { c2pa_reader = q; cpp_stream = p })) u v (
          inl (
            _,
            refl,
            free,
            sym (ap (λ h. h.kinds q) made) ∙ new,
            there ∙ ap (λ h. with_kind h q (some a_reader)) made,
          )))
  made_or_thrown before p s q u v free made (inr (e, (zero, same, error))) = rw (ap address zero) (
      Ends-weaken sdk good (λ r c (t, h, k). inr (e, p, t, free, h, k))
        (throw-Throws sdk good host u v (with_kind before p (some a_stream)) e (same ∙ made) error))

  counted-Ends :
      (w : Memory sdk)
      → IsCalm sdk good w
      → (result : ℤ) (b : Bool)
      → Ends sdk good
          (λ _ c. c.holds ≡ (view w).holds)
          (if b then throw sdk else pure (ok result))
          w
  counted-Ends w v result true = throw-Ends sdk good host w v
  counted-Ends w v result false = Ends-pure sdk good (ok result) w v refl

  module _ (w : Memory sdk) (v : IsCalm sdk good w) where
    pub reader_new-Opened :
        (format : Bytes) (stream : Iostream sdk.Env)
        → (cpp_istream stream).context ≢ 0
        → Answering (cpp_istream stream)
        → Ends sdk good
            (λ r c. Opened host.null_text (view w).holds r c.holds c.error)
            (reader_new sdk format stream)
            w
    unfolding reader_new perform Ready Allowed
    reader_new-Opened format stream ne answers =
        Ends-bind sdk good (c2pa_create_stream sdk (cpp_istream stream)) _ w
          (Ends-call sdk good host (Call.create_stream (cpp_istream stream)) pointer
            (c2pa_create_stream sdk (cpp_istream stream)) w refl v answers ne)
          λ p u v' makes.
            let (_, free, made) = made_at a_stream (view w) (view u) p makes in
            Ends-bind sdk good (c2pa_reader_from_stream sdk (c_str format) p) _ u
              (Ends-call sdk good host (Call.reader_from_stream (c_str format) p) pointer
                (c2pa_reader_from_stream sdk (c_str format) p) u refl v' tt
                (ap (λ h. h.kinds p) made ∙ with_kind-at (view w).holds p (some a_stream)))
              λ q x v'' outcome. made_or_thrown (view w).holds p (view u) q x v'' free made outcome

    pub json-Ends :
        (r : CppReader)
        → (view w).holds.kinds r.c2pa_reader ≡ some a_reader
        → Ends sdk good (λ _ c. c.holds ≡ (view w).holds) (json sdk r) w
    unfolding json perform Ready Allowed
    json-Ends r live =
        Ends-bind sdk good (c2pa_reader_json sdk r.c2pa_reader) (string_or_throw sdk) w
          (Ends-call sdk good host (Call.reader_json r.c2pa_reader) pointer
            (c2pa_reader_json sdk r.c2pa_reader) w refl v tt live)
          λ p u v' (t, says). string_or_throw-Ends sdk good host u v' (view w) p (has_zero t) t says

    pub get_resource-Ends :
        (r : CppReader) (uri : Bytes) (dest : Iostream sdk.Env)
        → (view w).holds.kinds r.c2pa_reader ≡ some a_reader
        → (cpp_ostream dest).context ≢ 0
        → Answering (cpp_ostream dest)
        → Ends sdk good (λ _ c. c.holds ≡ (view w).holds) (get_resource sdk r uri dest) w
    unfolding get_resource perform Ready Allowed
    get_resource-Ends r uri dest live ne answers =
        with_stream-Ends sdk good host (λ _ h _. h ≡ (view w).holds) (cpp_ostream dest) _ w v ne
          answers
          λ p u v' free made.
            Ends-bind sdk good (c2pa_reader_resource_to_stream sdk r.c2pa_reader (c_str uri) p) _ u
              (Ends-call sdk good host (Call.reader_resource_to_stream r.c2pa_reader (c_str uri) p)
                status (c2pa_reader_resource_to_stream sdk r.c2pa_reader (c_str uri) p) u refl v' tt
                (
                  ap (λ h. h.kinds r.c2pa_reader) made
                      ∙ (with_kind-other (view w).holds p r.c2pa_reader (some a_stream)
                            (new_apart (view w).holds p r.c2pa_reader free live)
                          ∙ live),
                  ap (λ h. h.kinds p) made ∙ with_kind-at (view w).holds p (some a_stream),
                ))
              λ result x v'' outcome.
                Ends-weaken sdk good
                  (λ r c h. (
                    (view w).holds,
                    free,
                    h ∙ (outcome_Same (view u) result (view x) outcome ∙ made),
                    refl,
                  ))
                  (counted-Ends x v'' result (is_negative result))
