-- ===== src/Cpp/Scope/Streams.antt =====
-- The scope of a stream adapter (src/c2pa.cpp) over the contract of the C interface.
use c2pa_c.Common.{Option, none, some, ◌≡◌, ◌≢◌, ◌∙◌, refl, sym, ap, inr, arith}
use mathlib.Core.Path.{subst}
use c2pa_c.Error.{Error}
use c2pa_c.Stream.{Ptr, CStream}
use c2pa_c.Sdk.{Sdk}
use c2pa_c.Sdk.Calm.{Answering}
use c2pa_c.CApi.{Api}
use c2pa_c.CApi.Streams.{c2pa_create_stream, c2pa_release_stream}
use c2pa_c.CApi.Session.{Call, pointer, done, perform}
use c2pa_c.CApi.Protocol.{Kind, a_stream, Holdings, with_kind, Ready, Allowed, view}
use c2pa_c.CApi.Protocol.Clients.{with_kind-other, new_apart, with_kind-at, with_kind-drop}
use c2pa_c.CApi.Protocol.Rules.{Memory, holdings_eq}
use c2pa_c.Cpp.Ends.{Hosted, IsCalm, EndsOr, Ends-pure, Ends-bind-run, Ends-bind, Ends-call}
use c2pa_c.Cpp.Texts.{made_at}
use c2pa_c.Cpp.Scope.{with_stream}

-- Changes at two addresses commute.
pub with_kind-swap :
    (h : Holdings) (p q : Ptr) (k l : Option Kind)
    → p ≢ q
    → with_kind (with_kind h p k) q l ≡ with_kind (with_kind h q l) p k
with_kind-swap h p q k l ne = holdings_eq (λ x. ground arith) refl

-- What is held is held besides a new stream, too.
pub still_held :
    (h h' : Holdings) (q r : Ptr) (k : Kind)
    → h.kinds q ≡ none
    → h' ≡ with_kind h q (some a_stream)
    → h.kinds r ≡ some k
    → h'.kinds r ≡ some k
still_held h h' q r k free made live =
    ap (λ h. h.kinds r) made
    ∙ (with_kind-other h q r (some a_stream) (new_apart h q r free live) ∙ live)

pub now_held :
    (h h' : Holdings) (q : Ptr) → h' ≡ with_kind h q (some a_stream) → h'.kinds q ≡ some a_stream
now_held h h' q made = ap (λ h. h.kinds q) made ∙ with_kind-at h q (some a_stream)

-- Another new object is apart from the stream.
pub new_beside :
    (q : Ptr) (before : Holdings) (p : Ptr)
    → (with_kind before q (some a_stream)).kinds p ≡ none
    → (p ≢ q) × (before.kinds p ≡ none)
new_beside q before p new = (
  λ same.
      cc
        (ap (with_kind before q (some a_stream)).kinds same, with_kind-at before q (some a_stream)),
  ground (arith, new),
)

module _ (sdk : Sdk) (good : sdk.Signer → Type 0) (host : Hosted sdk good) where
  -- An adapter that answers, for a body that leaves it alone: afterwards the adapter is gone. The
  -- body may use how the adapter was made.
  pub with_stream-run :
      {bad : Type 0} {A : Type 0} (Q : A → Holdings → Option Error → Type 0) (c : CStream sdk.Env)
      (body : Ptr → Api sdk A) (w : Memory sdk)
      → IsCalm sdk good w
      → c.context ≢ 0
      → Answering c
      → ((p : Ptr) (u : Memory sdk)
          → c2pa_create_stream sdk c w ≡ some (p, u)
          → IsCalm sdk good u
          → (view w).holds.kinds p ≡ none
          → (view u).holds ≡ with_kind (view w).holds p (some a_stream)
          → EndsOr sdk good bad
              (λ a s.
                (h : Holdings) × (h.kinds p ≡ none)
                × (s.holds ≡ with_kind h p (some a_stream))
                × Q a h s.error)
              (body p)
              u)
      → EndsOr sdk good bad (λ a s. Q a s.holds s.error) (with_stream sdk c body) w
  unfolding with_stream perform Ready Allowed
  with_stream-run Q c body w v ne answers inside =
      Ends-bind-run sdk good (c2pa_create_stream sdk c) _ w
        (Ends-call sdk good host (Call.create_stream c) pointer (c2pa_create_stream sdk c) w refl v
          answers ne)
        λ p u run v' makes.
          let (_, free, made) = made_at a_stream (view w) (view u) p makes in
          Ends-bind sdk good (body p) _ u (inside p u run v' free made)
            λ a x v'' (h, gone, there, q).
              Ends-bind sdk good (c2pa_release_stream sdk p) _ x
                (Ends-call sdk good host (Call.release_stream p) (λ _. done)
                  (c2pa_release_stream sdk p) x refl v'' tt
                  (inr (ap (λ h. h.kinds p) there ∙ with_kind-at h p (some a_stream))))
                λ _ y v''' (_, freed, error).
                  let back : (view y).holds ≡ h =
                    freed
                    ∙ (ap (λ h. with_kind h p none) there
                        ∙ with_kind-drop h p (some a_stream) gone) in
                  Ends-pure sdk good a y v'''
                    (subst (λ h'. Q a h' (view y).error) (sym back) (subst (Q a h) (sym error) q))

  pub with_stream-Ends :
      {bad : Type 0} {A : Type 0} (Q : A → Holdings → Option Error → Type 0) (c : CStream sdk.Env)
      (body : Ptr → Api sdk A) (w : Memory sdk)
      → IsCalm sdk good w
      → c.context ≢ 0
      → Answering c
      → ((p : Ptr) (u : Memory sdk)
          → IsCalm sdk good u
          → (view w).holds.kinds p ≡ none
          → (view u).holds ≡ with_kind (view w).holds p (some a_stream)
          → EndsOr sdk good bad
              (λ a s.
                (h : Holdings) × (h.kinds p ≡ none)
                × (s.holds ≡ with_kind h p (some a_stream))
                × Q a h s.error)
              (body p)
              u)
      → EndsOr sdk good bad (λ a s. Q a s.holds s.error) (with_stream sdk c body) w
  with_stream-Ends Q c body w v ne answers inside =
      with_stream-run Q c body w v ne answers λ p u run. inside p u
