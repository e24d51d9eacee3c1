-- ===== src/CApi/Protocol/Clients/Signing.antt =====
-- A client that signs with a new builder (src/c_api.rs).
use c2pa_c.Common.{Bytes, none, some, ◌==◌, if◌then◌else◌, ◌≡◌, ◌∙◌, ◌≢◌, inl, inr, ==_ne}
use c2pa_c.Stream.{Ptr}
use c2pa_c.Memory.Laws.{IsValid, Every}
use c2pa_c.Sdk.{Sdk}
use c2pa_c.Sdk.Calm.{Calm, IsSound}
use c2pa_c.CApi.{CStr, null}
use c2pa_c.CApi.Session.{Call, Reply, pointer}
use c2pa_c.CApi.Protocol.{
  Kind, a_builder, a_stream, a_signer, Client, with_kind, Ready, Allowed, view,
}
use c2pa_c.CApi.Protocol.Rules.{Memory}
use c2pa_c.CApi.Protocol.Program.{Program, finish, call, play, Follows, play-returns}
use c2pa_c.CApi.Protocol.Clients.{with_kind-at, with_kind-drop, new_apart}

module _ {sdk : Sdk} where
  -- Signs without a variable for the manifest, and frees the builder in any case.
  abbrev pub sign_with : CStr → (source dest signer : Ptr) → Reply → Program sdk
  sign_with format source dest signer (pointer p) =
      if p == null
      then finish
      else call (Call.builder_sign p format source dest signer 0)
          λ _. call (Call.builder_free p) λ _. finish
  sign_with format source dest signer _ = finish

  abbrev pub sign_once : CStr → CStr → (source dest signer : Ptr) → Program sdk
  sign_once json format source dest signer =
      call (Call.builder_from_json json) (sign_with format source dest signer)

module _ (sdk : Sdk) (good : sdk.Signer → Type 0) where
  sign_once-Follows :
      (json : CStr) (format : Bytes) (i o g : Ptr) (s : Client)
      → s.holds.kinds i ≡ some a_stream
      → s.holds.kinds o ≡ some a_stream
      → s.holds.kinds g ≡ some a_signer
      → i ≢ o
      → Follows sdk good (λ s'. s'.holds ≡ s.holds) (sign_once json (some format) i o g) s
  unfolding Follows Ready Allowed
  sign_once-Follows none format i o g s input output key apart =
      (tt, tt, λ r s' (e, same, _). rw e same)
  sign_once-Follows (some json) format i o g s input output key apart = (tt, tt, by_outcome)
    where
      freed :
          (p : Ptr) (s' : Client) (r : Reply) (s2 : Client)
          → s.holds.kinds p ≡ none
          → s'.holds ≡ with_kind s.holds p (some a_builder)
          → s2.holds ≡ s'.holds
          → Follows sdk good (λ s'. s'.holds ≡ s.holds) (call (Call.builder_free p) λ _. finish) s2
      freed p s' r s2 here made same = (
        inr (rw (same, made) (with_kind-at s.holds p (some a_builder))),
        tt,
        λ r s3 (_, gone, _).
            gone ∙ rw (same, made) (with_kind-drop s.holds p (some a_builder) here),
      )

      signed :
          (p : Ptr) (s' : Client) (r : Reply) (s2 : Client)
          → s.holds.kinds p ≡ none
          → s'.holds ≡ with_kind s.holds p (some a_builder)
          → Allowed {sdk = sdk} (Call.builder_sign p (some format) i o g 0) s' r s2
          → Follows sdk good (λ s'. s'.holds ≡ s.holds) (call (Call.builder_free p) λ _. finish) s2
      signed p s' r s2 here made (inl (_, _, same)) = freed p s' r s2 here made same
      signed p s' r s2 here made (inr (_, (_, same, _))) = freed p s' r s2 here made same

      held :
          (p q : Ptr) (s' : Client) {k : Kind}
          → s.holds.kinds p ≡ none
          → s'.holds ≡ with_kind s.holds p (some a_builder)
          → s.holds.kinds q ≡ some k
          → s'.holds.kinds q ≡ some k
      held p q s' here made h = rw made (rw (==_ne p q (new_apart s.holds p q here h)) h)

      by_outcome :
          (r : Reply) (s' : Client)
          → Allowed {sdk = sdk} (Call.builder_from_json (some json)) s r s'
          → Follows sdk good (λ s'. s'.holds ≡ s.holds) (sign_with (some format) i o g r) s'
      by_outcome r s' (inr (_, (e, same, _))) = rw e same
      by_outcome r s' (inl (p, e, ne, here, made)) = rw e (
          rw (==_ne p 0 ne) (
            (
              rw made (with_kind-at s.holds p (some a_builder)),
              held p g s' here made key,
              held p i s' here made input,
              held p o s' here made output,
              apart,
            ),
            tt,
            λ r s2. signed p s' r s2 here made,
          ))

  -- A client that makes a builder from any text, null included, signs with a format, a live signer
  -- and two different live streams, without a variable for the manifest, and frees the builder
  -- whether signing failed or not, with an SDK that answers, in a valid memory whose streams answer
  -- and whose signers are good: it runs to its end and then holds what it held before.
  pub sign_once-balanced :
      Calm sdk good
      → (w : Memory sdk) → IsValid w
      → Every (IsSound sdk good) w
      → (json : CStr) (format : Bytes) (i o g : Ptr) → (view w).holds.kinds i ≡ some a_stream
      → (view w).holds.kinds o ≡ some a_stream
      → (view w).holds.kinds g ≡ some a_signer
      → i ≢ o
      → (w' : Memory sdk) × (play sdk (sign_once json (some format) i o g) w ≡ some (tt, w'))
        × ((view w').holds ≡ (view w).holds)
  sign_once-balanced calm w v s json format i o g input output key apart =
      let (w', run, _, _, same) =
        play-returns sdk good calm (λ s'. s'.holds ≡ (view w).holds)
          (sign_once json (some format) i o g) w v s
          (sign_once-Follows json format i o g (view w) input output key apart) in
      (w', run, same)
