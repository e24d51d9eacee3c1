-- ===== src/Cpp/Builder/Outcomes.antt =====
-- How the calls that return manifest bytes end, in the scope of a stream (src/c2pa.cpp, lines 609
-- to 756), over the contract of the C interface.
use c2pa_c.Common.{zero, suc, Bytes, Option, none, some, ℤ, ◌≡◌, ◌≢◌, ◌⊎◌, refl, sym, ap, inl, inr}
use mathlib.Core.Path.{subst}
use mathlib.Core.Option.{some-injective}
use c2pa_c.Error.{Error}
use c2pa_c.Stream.{Ptr, CStream}
use c2pa_c.Sdk.{Sdk}
use c2pa_c.Sdk.Calm.{Answering}
use c2pa_c.CApi.{Api}
use c2pa_c.CApi.Session.{Call, status, perform, replies}
use c2pa_c.CApi.Session.Safety.{Admits}
use c2pa_c.CApi.Protocol.{
  Kind, a_builder, a_signer, a_stream, Holdings, Client, with_kind, Ready, Allowed, Delivers, Fails,
  LosesBoth, WithError, Present, view,
}
use c2pa_c.CApi.Protocol.Clients.{new_apart}
use c2pa_c.CApi.Protocol.Rules.{Memory}
use c2pa_c.Cpp.Ends.{Hosted, IsCalm, EndsOr, Ends-weaken, Ends-call}
use c2pa_c.Cpp.Texts.{code_of}
use c2pa_c.Cpp.Scope.{with_stream}
use c2pa_c.Cpp.Scope.Streams.{still_held, with_stream-run}
use c2pa_c.Cpp.Scope.Delivery.{Loss, CallEnd, delivered, failed, both_lost, Apart}
use c2pa_c.CApi.Streams.{c2pa_create_stream}

-- The outcome of a call, for a variable with an address.
pub delivery_end :
    (slot : Ptr) (loss : Loss) (s s' : Client) (code : ℤ)
    → slot ≢ 0
    → Delivers s (status code) s' slot ⊎ WithError (Fails s (status code) s')
    → CallEnd slot loss s.holds code s'.holds s'.error
delivery_end zero loss s s' code ne outcome = elim (ne refl) [ ]
delivery_end (suc v) loss s s' code ne (inl (n, p, said, live, new, made)) =
    delivered n p (ap code_of said) live new made
delivery_end (suc v) loss s s' code ne (inr (e, (said, same, told))) =
    failed e (ap code_of said) same told

pub present_of :
    (slot : Ptr) (name : Bytes) (F : Error → Type 0) (P : Type 0)
    → slot ≢ 0
    → Present slot name F P
    → P
present_of zero name F P ne x = elim (ne refl) [ ]
present_of (suc v) name F P ne x = x

-- The call that may free the builder and the signer.
pub hashed_end :
    (slot b g : Ptr) (s s' : Client) (code : ℤ)
    → slot ≢ 0
    → WithError (LosesBoth s (status code) s' b g)
      ⊎ (Delivers s (status code) s' slot ⊎ WithError (Fails s (status code) s'))
    → CallEnd slot (some (b, g)) s.holds code s'.holds s'.error
hashed_end slot b g s s' code ne (inl (e, (said, gone, told))) =
    both_lost e (b, g) refl (ap code_of said) gone told
hashed_end slot b g s s' code ne (inr outcome) =
    delivery_end slot (some (b, g)) s s' code ne outcome

pub none-Apart : (q : Ptr) → Apart none q
none-Apart q two e = cc

-- A builder and a signer that are held are apart from a new object.
pub two-Apart :
    (h : Holdings) (b g q : Ptr)
    → h.kinds q ≡ none
    → h.kinds b ≡ some a_builder
    → h.kinds g ≡ some a_signer
    → Apart (some (b, g)) q
two-Apart h b g q free live live' two e =
    let same : (b, g) ≡ two = some-injective _ _ e in
    subst (λ x. (x.0 ≢ q) × (x.1 ≢ q)) same
      (λ e. new_apart h q b free live (sym e), λ e. new_apart h q g free live' (sym e))

-- Besides two new streams.
pub both :
    (h h' h'' : Holdings) (p q r : Ptr) (k : Kind)
    → h.kinds p ≡ none
    → h'.kinds q ≡ none
    → h' ≡ with_kind h p (some a_stream)
    → h'' ≡ with_kind h' q (some a_stream)
    → h.kinds r ≡ some k
    → h''.kinds r ≡ some k
both h h' h'' p q r k free free' made made' live =
    still_held h' h'' q r k free' made' (still_held h h' p r k free made live)

module _ (sdk : Sdk) (good : sdk.Signer → Type 0) (host : Hosted sdk good) (slot : Ptr) where
  -- The scope of a stream, for an outcome that is told as if the stream did not stand besides.
  pub with_stream-beside :
      {bad : Type 0} {A : Type 0} (F : Holdings → A → Holdings → Option Error → Type 0)
      (c : CStream sdk.Env) (body : Ptr → Api sdk A) (w : Memory sdk)
      → IsCalm sdk good w
      → c.context ≢ 0
      → Answering c
      → ((q : Ptr) (a : A) (after : Holdings) (error : Option Error)
          → (view w).holds.kinds q ≡ none
          → F (with_kind (view w).holds q (some a_stream)) a after error
          → (h : Holdings) × (h.kinds q ≡ none)
            × (after ≡ with_kind h q (some a_stream))
            × F (view w).holds a h error)
      → ((q : Ptr) (u : Memory sdk)
          → c2pa_create_stream sdk c w ≡ some (q, u)
          → IsCalm sdk good u
          → (view w).holds.kinds q ≡ none
          → (view u).holds ≡ with_kind (view w).holds q (some a_stream)
          → EndsOr sdk good bad (λ a s. F (view u).holds a s.holds s.error) (body q) u)
      → EndsOr sdk good bad (λ a s. F (view w).holds a s.holds s.error) (with_stream sdk c body) w
  with_stream-beside F c body w v ne answers beside inside =
      with_stream-run sdk good host (F (view w).holds) c body w v ne answers λ q u run v' free made.
        Ends-weaken sdk good
          (λ a s outcome.
            beside q a s.holds s.error free (subst (λ h. F h a s.holds s.error) made outcome))
          (inside q u run v' free made)

  -- A call that is told from the holdings before it.
  pub called :
      {bad : Type 0} (loss : Loss) (c : Call sdk) (run : Api sdk ℤ) (h : Holdings) (u : Memory sdk)
      → perform sdk c ≡ replies sdk status run
      → Admits sdk Answering good c
      → IsCalm sdk good u
      → (view u).holds ≡ h
      → Ready c (view u)
      → ((code : ℤ) (s' : Client)
          → Allowed c (view u) (status code) s'
          → CallEnd slot loss (view u).holds code s'.holds s'.error)
      → EndsOr sdk good bad (λ code s. CallEnd slot loss h code s.holds s.error) run u
  called loss c run h u same admits v kept ready told =
      Ends-weaken sdk good
        (λ code s outcome.
          subst (λ h. CallEnd slot loss h code s.holds s.error) kept (told code s outcome))
        (Ends-call sdk good host c status run u same v admits ready)
