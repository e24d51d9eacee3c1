-- ===== src/Cpp/Builder/Filling.antt =====
-- The members of `Builder` that fill it from a stream (src/c2pa.cpp, lines 566 to 593 and 681 to
-- 687), over the contract of the C interface.
use c2pa_c.Common.{
  Bytes, Option, none, some, Result, ok, err, ℤ, ◌>>=◌, ◌≡◌, ◌≢◌, ◌⊎◌, ◌∙◌, refl, sym, ap, inl, inr,
}
use c2pa_c.Error.{Error}
use c2pa_c.Stream.{Ptr}
use c2pa_c.Sdk.{Sdk}
use c2pa_c.Sdk.Calm.{Answering}
use c2pa_c.CApi.{Api}
use c2pa_c.CApi.Building.{
  c2pa_builder_add_resource, c2pa_builder_add_ingredient_from_stream, c2pa_builder_to_archive,
}
use c2pa_c.CApi.Session.{Call, Reply, status, perform}
use c2pa_c.CApi.Protocol.{
  a_builder, a_stream, Holdings, Client, with_kind, Ready, Allowed, Succeeds, Loses, WithError,
  view,
}
use c2pa_c.CApi.Protocol.Clients.{with_kind-at, with_kind-other, new_apart}
use c2pa_c.CApi.Protocol.Rules.{Memory}
use c2pa_c.CApi.Session.{replies}
use c2pa_c.CApi.Session.Safety.{Admits}
use c2pa_c.Cpp.{Cpp, c_str}
use c2pa_c.Cpp.Iostream.{Iostream, cpp_istream, cpp_ostream}
use c2pa_c.Cpp.Iostream.Answers.{IsReturning, cpp_istream-Answering, cpp_ostream-Answering}
use c2pa_c.Cpp.Ends.{Hosted, what_of, IsCalm, Ends, Ends-pure, Ends-bind, Ends-weaken, Ends-call}
use c2pa_c.Cpp.Texts.{code_of, throw-Throws}
use c2pa_c.Cpp.Scope.Streams.{with_kind-swap, with_stream-Ends}
use c2pa_c.Cpp.Builder.{done_or_throw, add_resource, add_ingredient, to_archive}

-- A member returns and the client holds what it held, or it throws and the builder is gone.
abbrev pub Filled :
    (null_text : Bytes)
    → Ptr
    → Holdings
    → Result (Unit {0}) Bytes
    → Holdings
    → Option Error
    → Type 0
Filled null_text b before r after error =
    ((r ≡ ok tt) × (after ≡ before))
    ⊎ ((e : Error) × (r ≡ err (what_of null_text (some e)))
        × (after ≡ with_kind before b none)
        × (error ≡ some e))

module _ (sdk : Sdk) where
  -- The members, with the arguments that they are given.
  pub data Filling : Type 0 where
    resource : (uri : Bytes) (source : Iostream sdk.Env) → Filling
    ingredient : (ingredient_json format : Bytes) (source : Iostream sdk.Env) → Filling
    archive : (dest : Iostream sdk.Env) → Filling

  abbrev pub fill : Filling → Ptr → Cpp sdk (Unit {0})
  fill (resource uri source) b = add_resource sdk b uri source
  fill (ingredient json format source) b = add_ingredient sdk b json format source
  fill (archive dest) b = to_archive sdk b dest

  abbrev pub stream_of : Filling → Iostream sdk.Env
  stream_of (resource uri source) = source
  stream_of (ingredient json format source) = source
  stream_of (archive dest) = dest

  module _ (good : sdk.Signer → Type 0) (host : Hosted sdk good) where
    -- The end of a member, after a call that keeps the builder or loses it.
    pub done_or_throw-Filled :
        (b : Ptr) (s : Client) (result : ℤ) (u : Memory sdk)
        → IsCalm sdk good u
        → Succeeds s (status result) (view u) ⊎ WithError (Loses s (status result) (view u) b)
        → Ends sdk good
            (λ r c. Filled host.null_text b s.holds r c.holds c.error)
            (done_or_throw sdk result)
            u
    unfolding done_or_throw
    done_or_throw-Filled b s result u v (inl (e, same)) =
        rw (ap code_of e) (Ends-pure sdk good (ok tt) u v (inl (refl, same)))
    done_or_throw-Filled b s result u v (inr (x, (e, lost, error))) = rw (ap code_of e) (
        Ends-weaken sdk good (λ r c (t, h, k). inr (x, t, h, k))
          (throw-Throws sdk good host u v (with_kind s.holds b none) x lost error))

    -- What stands besides the adapter.
    beside :
        (b p : Ptr) (before : Holdings) (u : Memory sdk) (r : Result (Unit {0}) Bytes) (c : Client)
        → b ≢ p
        → before.kinds p ≡ none
        → (view u).holds ≡ with_kind before p (some a_stream)
        → Filled host.null_text b (view u).holds r c.holds c.error
        → (h : Holdings) × (h.kinds p ≡ none)
          × (c.holds ≡ with_kind h p (some a_stream))
          × Filled host.null_text b before r h c.error
    beside b p before u r c ne free made (inl (e, same)) =
        (before, free, same ∙ made, inl (e, refl))
    beside b p before u r c ne free made (inr (x, e, lost, error)) = (
      with_kind before b none,
      with_kind-other before b p none ne ∙ free,
      lost
          ∙ (ap (λ h. with_kind h b none) made
              ∙ with_kind-swap before p b (some a_stream) none (λ same. ne (sym same))),
      inr (x, e, refl, error),
    )

    module _ (b : Ptr) (w : Memory sdk) (v : IsCalm sdk good w)
        (live : (view w).holds.kinds b ≡ some a_builder) where
      -- A call on the builder and the new stream, and the end of the member.
      called :
          (c : Ptr → Call sdk) (run : Ptr → Api sdk ℤ) (p : Ptr) (u : Memory sdk)
          → perform sdk (c p) ≡ replies sdk status (run p)
          → Admits sdk Answering good (c p)
          → ((view u).holds.kinds b ≡ some a_builder
              → (view u).holds.kinds p ≡ some a_stream
              → Ready (c p) (view u))
          → ((r : Reply) (s' : Client)
              → Allowed (c p) (view u) r s'
              → Succeeds (view u) r s' ⊎ WithError (Loses (view u) r s' b))
          → IsCalm sdk good u
          → (view w).holds.kinds p ≡ none
          → (view u).holds ≡ with_kind (view w).holds p (some a_stream)
          → Ends sdk good
              (λ r s.
                (h : Holdings) × (h.kinds p ≡ none)
                × (s.holds ≡ with_kind h p (some a_stream))
                × Filled host.null_text b (view w).holds r h s.error)
              (run p >>= done_or_throw sdk)
              u
      called c run p u same admits ready outcome v' free made =
          let ne : b ≢ p = λ e. new_apart (view w).holds p b free live (sym e) in
          Ends-bind sdk good (run p) (done_or_throw sdk) u
            (Ends-call sdk good host (c p) status (run p) u same v' admits (
              ready
                (ap (λ h. h.kinds b) made
                  ∙ (with_kind-other (view w).holds p b (some a_stream) (λ e. ne (sym e)) ∙ live))
                (ap (λ h. h.kinds p) made ∙ with_kind-at (view w).holds p (some a_stream))))
            λ result x v'' allowed.
              Ends-weaken sdk good
                (λ r s filled. beside b p (view w).holds u r s ne free made filled)
                (done_or_throw-Filled b (view u) result x v''
                  (outcome (status result) (view x) allowed))

      -- Each member, on a live builder and a stream that returns: it returns, and the client holds
      -- what it held; or it throws the last error, and the builder is gone.
      pub fill-Filled :
          (m : Filling)
          → (stream_of m).address ≢ 0
          → IsReturning (stream_of m)
          → Ends sdk good
              (λ r s. Filled host.null_text b (view w).holds r s.holds s.error)
              (fill m b)
              w
      unfolding add_resource add_ingredient to_archive perform Ready Allowed
      fill-Filled (resource uri source) ne able =
          with_stream-Ends sdk good host (Filled host.null_text b (view w).holds)
            (cpp_istream source) _ w v ne (cpp_istream-Answering source able)
            λ p u v' free made.
              called (λ p. Call.builder_add_resource b (c_str uri) p)
                (λ p. c2pa_builder_add_resource sdk b (c_str uri) p) p u refl tt
                (λ builder stream. (builder, stream)) (λ r s' allowed. allowed) v' free made
      fill-Filled (ingredient json format source) ne able =
          with_stream-Ends sdk good host (Filled host.null_text b (view w).holds)
            (cpp_istream source) _ w v ne (cpp_istream-Answering source able)
            λ p u v' free made.
              called (λ p. Call.builder_add_ingredient b (c_str json) (c_str format) p)
                (λ p. c2pa_builder_add_ingredient_from_stream sdk b (c_str json) (c_str format) p) p
                u refl tt (λ builder stream. (builder, stream)) (λ r s' allowed. allowed) v' free
                made
      fill-Filled (archive dest) ne able =
          with_stream-Ends sdk good host (Filled host.null_text b (view w).holds) (cpp_ostream dest)
            _ w v ne (cpp_ostream-Answering dest able)
            λ p u v' free made.
              called (λ p. Call.builder_to_archive b p) (λ p. c2pa_builder_to_archive sdk b p) p u
                refl tt (λ builder stream. (builder, stream)) (λ r s' allowed. allowed) v' free made
