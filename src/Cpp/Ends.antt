-- ===== src/Cpp/Ends.antt =====
-- A logic of total runs for the C++ wrapper (src/c2pa.cpp) over the contract of the C interface.
use c2pa_c.Common.{
  Bytes, if◌then◌else◌, Option, none, some, ◌>>=◌, pure, gets, ◌≡◌, refl, sym, ap, ◌∙◌, arith,
}
use mathlib.Core.Option.{some-injective}
use mathlib.Core.Path.{subst}
use c2pa_c.Error.{Error}
use c2pa_c.Memory.Frame.{Fits}
use c2pa_c.Sdk.{Sdk}
use c2pa_c.Sdk.Calm.{Calm, Answering, IsSound}
use c2pa_c.CApi.{Api, has_zero}
use c2pa_c.CApi.Session.{Call, Reply, perform, replies}
use c2pa_c.CApi.Session.Safety.{Admits, perform-Keeps}
use c2pa_c.CApi.Protocol.{Client, Ready, Allowed, message, view}
use c2pa_c.CApi.Protocol.Rules.{Memory}
use c2pa_c.CApi.Protocol.Soundness.{perform-Allowed}

-- The text of an exception: what the last error says; or, where that has a zero byte in it, and
-- `c2pa_error` gives null, the text that C++ makes of null.
abbrev pub what_of : (null_text : Bytes) → Option Error → Bytes
what_of null_text error = if has_zero (message error) then null_text else message error

module _ (sdk : Sdk) (good : sdk.Signer → Type 0) where
  -- The SDK answers, and the standard library of C++ gives some text for null.
  pub record Hosted : Type 0 where
    pub calm : Calm sdk good
    pub null_text : Bytes
    pub defined : sdk.string_of_null ≡ some null_text

  abbrev pub IsCalm : Memory sdk → Type 0
  IsCalm = Fits (IsSound sdk good)

  -- A run returns, with a result and to a client of which `Q` holds; or it faults, and it is known
  -- why.
  pub data EndsOr (bad : Type 0) {A : Type 0} (Q : A → Client → Type 0) (m : Api sdk A)
      (w : Memory sdk) : Type 0 where
    returns :
        (a : A) (w' : Memory sdk)
        → m w ≡ some (a, w')
        → IsCalm w'
        → Q a (view w')
        → EndsOr bad Q m w
    faults : bad → m w ≡ none → EndsOr bad Q m w

  -- A run returns.
  abbrev pub Ends : {A : Type 0} → (A → Client → Type 0) → Api sdk A → Memory sdk → Type 0
  Ends Q m w = EndsOr ⊥ Q m w

  module _ {bad : Type 0} {A : Type 0} {Q : A → Client → Type 0} where
    pub Ends-pure : (a : A) (w : Memory sdk) → IsCalm w → Q a (view w) → EndsOr bad Q (pure a) w
    Ends-pure a w v q = returns a w refl v q

    pub Ends-gets :
        (f : Memory sdk → A) (w : Memory sdk)
        → IsCalm w
        → Q (f w) (view w)
        → EndsOr bad Q (gets f) w
    Ends-gets f w v q = returns (f w) w refl v q

    -- What follows may use how the first action ran.
    pub Ends-bind-run :
        {B : Type 0} {P : B → Client → Type 0} (m : Api sdk B) (f : B → Api sdk A) (w : Memory sdk)
        → EndsOr bad P m w
        → ((b : B) (u : Memory sdk)
            → m w ≡ some (b, u)
            → IsCalm u
            → P b (view u)
            → EndsOr bad Q (f b) u)
        → EndsOr bad Q (m >>= f) w
    Ends-bind-run m f w (returns b u e v p) next = after (next b u e v p)
      where
        after : EndsOr bad Q (f b) u → EndsOr bad Q (m >>= f) w
        after (returns a w' run v' q) = returns a w' (rw (e, ◌>>=◌) run) v' q
        after (faults why stuck) = faults why (rw (e, ◌>>=◌) stuck)
    Ends-bind-run m f w (faults why stuck) next = faults why (rw (stuck, ◌>>=◌) refl)

    pub Ends-bind :
        {B : Type 0} {P : B → Client → Type 0} (m : Api sdk B) (f : B → Api sdk A) (w : Memory sdk)
        → EndsOr bad P m w
        → ((b : B) (u : Memory sdk) → IsCalm u → P b (view u) → EndsOr bad Q (f b) u)
        → EndsOr bad Q (m >>= f) w
    Ends-bind m f w first next = Ends-bind-run m f w first λ b u e v p. next b u v p

    pub Ends-weaken :
        {P : A → Client → Type 0} {m : Api sdk A} {w : Memory sdk}
        → ((a : A) (s : Client) → P a s → Q a s)
        → EndsOr bad P m w
        → EndsOr bad Q m w
    Ends-weaken f (returns a w' e v p) = returns a w' e v (f a (view w') p)
    Ends-weaken f (faults why stuck) = faults why stuck

    -- What is known of a fault may be said in other words.
    pub Ends-excuse :
        {other : Type 0} {m : Api sdk A} {w : Memory sdk}
        → (other → bad)
        → EndsOr other Q m w
        → EndsOr bad Q m w
    Ends-excuse f (returns a w' e v q) = returns a w' e v q
    Ends-excuse f (faults why stuck) = faults (f why) stuck

    -- The same run, in other words.
    pub Ends-as :
        {m m' : Api sdk A} {w w' : Memory sdk} → m' w' ≡ m w → EndsOr bad Q m w → EndsOr bad Q m' w'
    Ends-as same (returns a x e v q) = returns a x (same ∙ e) v q
    Ends-as same (faults why stuck) = faults why (same ∙ stuck)

    pub Ends-any : {m : Api sdk A} {w : Memory sdk} → Ends Q m w → EndsOr bad Q m w
    Ends-any (returns a w' e v q) = returns a w' e v q
    Ends-any (faults why stuck) = elim why [ ]

module _ (sdk : Sdk) (good : sdk.Signer → Type 0) where
  -- The result of a call that stands behind a reply.
  replied :
      {A : Type 0} (make : A → Reply) (x : Option (A × Memory sdk)) (r : Reply) (w' : Memory sdk)
      → ◌≡◌ {A = Option (Reply × Memory sdk)}
          (elim x [ none ↦ none | some (a, u) ↦ some (make a, u) ])
          (some (r, w'))
      → (a : A) × (x ≡ some (a, w')) × (r ≡ make a)
  replied make none r w' e = cc
  replied make (some (a, u)) r w' e =
      let same : ◌≡◌ {A = Reply × Memory sdk} (make a, u) (r, w') = some-injective _ _ e in
      (a, cc, cc)

  -- A call that the client is ready for.
  pub Ends-call :
      Hosted sdk good
      → {bad : Type 0} {A : Type 0} (c : Call sdk) (make : A → Reply) (m : Api sdk A)
        (w : Memory sdk)
      → perform sdk c ≡ replies sdk make m
      → IsCalm sdk good w
      → Admits sdk Answering good c
      → Ready c (view w)
      → EndsOr sdk good bad (λ a s'. Allowed c (view w) (make a) s') m w
  Ends-call host c make m w same v admits ready =
      let step = perform-Allowed sdk good host.calm w v.valid v.every c ready in
      let kept = perform-Keeps sdk c admits w v (omega arith) step.result step.after step.ran in
      let (a, run, reply) =
        replied make (m w) step.result step.after (sym (ap (λ h. h w) same) ∙ step.ran) in
      returns a step.after run kept.fits
        (subst (λ r. Allowed c (view w) r (view step.after)) reply step.meets)
