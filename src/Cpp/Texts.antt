-- ===== src/Cpp/Texts.antt =====
-- The strings and the exception of the C++ wrapper (src/c2pa.cpp, lines 68 to 89) over the
-- contract.
use c2pa_c.Common.{
  ℤ, pos, Bytes, Bool, true, false, none, some, Result, ok, err, pure, ◌>>=◌, ◌≡◌, ◌∙◌, refl, ap,
  sym, ◌≢◌, ◌==◌, if◌then◌else◌, or_fault, ==_ne, inr,
}
use mathlib.Core.Path.{subst}
use c2pa_c.Error.{Error}
use c2pa_c.Stream.{Ptr}
use c2pa_c.Memory.Laws.{borrow-live}
use c2pa_c.Sdk.{Sdk, as_c_string}
use c2pa_c.CApi.{has_zero}
use c2pa_c.CApi.Files.{c2pa_error, c2pa_release_string, c2pa_string_free}
use c2pa_c.CApi.Session.{Call, Reply, pointer, status, done, perform}
use c2pa_c.CApi.Protocol.{
  a_text, Holdings, Client, with_kind, Ready, Allowed, Kind, Makes, SaysBy, message, view, kind_at,
}
use c2pa_c.CApi.Protocol.Handles.{held_text}
use c2pa_c.CApi.Protocol.Clients.{with_kind-at, with_kind-drop}
use c2pa_c.CApi.Protocol.Rules.{Memory}
use c2pa_c.Cpp.{string_at, take_string, exception, throw, string_or_throw}
use c2pa_c.Cpp.Ends.{
  Hosted, what_of, IsCalm, Ends, returns, Ends-pure, Ends-bind, Ends-weaken, Ends-call,
}

-- What a function does that throws: the message is the text of the last error.
abbrev pub Throws :
    {A : Type 0} → (null_text : Bytes) → Holdings → Error → Result A Bytes → Client → Type 0
Throws null_text h e r s =
    (r ≡ err (what_of null_text (some e))) × (s.holds ≡ h) × (s.error ≡ some e)

-- The address of a reply.
abbrev pub address : Reply → Ptr
address (pointer p) = p
address (status _) = 0
address done = 0

-- The code of a reply.
abbrev pub code_of : Reply → ℤ
code_of (pointer _) = pos 0
code_of (status c) = c
code_of done = pos 0

-- A new object, by its address.
pub made_at :
    (k : Kind) (s s' : Client) (p : Ptr)
    → Makes s (pointer p) s' k
    → (p ≢ 0) × (s.holds.kinds p ≡ none) × (s'.holds ≡ with_kind s.holds p (some k))
made_at k s s' p (q, e, ne, free, made) =
    subst (λ x. (x ≢ 0) × (s.holds.kinds x ≡ none) × (s'.holds ≡ with_kind s.holds x (some k)))
      (sym (ap address e)) (ne, free, made)

not_null :
    {sdk : Sdk} {good : sdk.Signer → Type 0} (w : Memory sdk)
    → IsCalm sdk good w
    → (p : Ptr) (k : Kind) → (view w).holds.kinds p ≡ some k
    → (p == 0) ≡ false
not_null w v p k held = ==_ne p 0 (λ e. cc (v.valid.null_free, held, e))

module _ (sdk : Sdk) (good : sdk.Signer → Type 0) (host : Hosted sdk good) where
  module _ (w : Memory sdk) (v : IsCalm sdk good w) (p : Ptr) (t : Bytes)
      (held : (view w).holds.kinds p ≡ some (a_text t)) where
    string_at-Ends :
        Ends sdk good
          (λ s c. (s ≡ t) × (c.holds ≡ (view w).holds) × (c.error ≡ (view w).error))
          (string_at sdk p)
          w
    unfolding string_at as_c_string
    string_at-Ends =
        let (x, here) = held_text sdk w p held in
        let says : some (a_text x) ≡ some (a_text t) = sym (ap kind_at here) ∙ held in
        returns x w
          (rw (not_null w v p (a_text t) held) (borrow-live (as_c_string sdk) w p x (rw here refl)))
          v (cc, refl, refl)

    pub take_string-Ends :
        Ends sdk good
          (λ s c.
            (s ≡ t) × (c.holds ≡ with_kind (view w).holds p none) × (c.error ≡ (view w).error))
          (take_string sdk p)
          w
    unfolding take_string perform Ready Allowed
    take_string-Ends = Ends-bind sdk good (string_at sdk p) _ w string_at-Ends λ s u v' (e, h, k).
        Ends-bind sdk good (c2pa_release_string sdk p) _ u
          (Ends-call sdk good host (Call.release_string p) (λ _. done) (c2pa_release_string sdk p) u
            refl v' tt (inr (t, ap (λ h. h.kinds p) h ∙ held)))
          λ _ u' v'' (_, h', k').
            Ends-pure sdk good s u' v'' (e, h' ∙ ap (λ h. with_kind h p none) h, k' ∙ k)

  -- Of null C++ makes some text.
  taken_at_null : (u : Memory sdk) → take_string sdk 0 u ≡ some (host.null_text, u)
  unfolding take_string string_at c2pa_release_string c2pa_string_free
  taken_at_null u = rw (host.defined, ◌>>=◌, or_fault) refl

  take_string-null :
      (u : Memory sdk)
      → IsCalm sdk good u
      → (p : Ptr) → p ≡ 0
      → Ends sdk good
          (λ s c. (s ≡ host.null_text) × (c.holds ≡ (view u).holds) × (c.error ≡ (view u).error))
          (take_string sdk p)
          u
  take_string-null u v p e =
      returns host.null_text u (ap (λ p. take_string sdk p u) e ∙ taken_at_null u) v
        (refl, refl, refl)

  module _ (w : Memory sdk) (v : IsCalm sdk good w) where
    -- The exception says what the last error is.
    pub exception-Ends :
        Ends sdk good
          (λ m c.
            (m ≡ what_of host.null_text (view w).error)
            × (c.holds ≡ (view w).holds)
            × (c.error ≡ (view w).error))
          (exception sdk)
          w
    unfolding exception perform Ready Allowed
    exception-Ends =
        Ends-bind sdk good (c2pa_error sdk) (take_string sdk) w
          (Ends-call sdk good host Call.error pointer (c2pa_error sdk) w refl v tt tt)
          λ p u v' (says, k). by_zero p u v' k (has_zero (message (view w).error)) refl says
      where
        by_zero :
            (p : Ptr) (u : Memory sdk)
            → IsCalm sdk good u
            → (view u).error ≡ (view w).error
            → (b : Bool) → has_zero (message (view w).error) ≡ b
            → SaysBy (view w) (pointer p) (view u) b (message (view w).error)
            → Ends sdk good
                (λ m c.
                  (m ≡ what_of host.null_text (view w).error)
                  × (c.holds ≡ (view w).holds)
                  × (c.error ≡ (view w).error))
                (take_string sdk p)
                u
        by_zero p u v' k true zero (null, same) =
            Ends-weaken sdk good (λ m c (e, h, k'). (rw zero e, h ∙ same, k' ∙ k))
              (take_string-null u v' p (ap address null))
        by_zero p u v' k false zero (q, e, ne, here, made) =
            Ends-weaken sdk good
              (λ m c (e', h, k'). (
                rw zero e',
                h
                    ∙ (ap (λ h. with_kind h p none) made
                        ∙ rw (ap address e) (with_kind-drop (view w).holds q _ here)),
                k' ∙ k,
              ))
              (take_string-Ends u v' p (message (view w).error)
                (ap (λ h. h.kinds p) made ∙ rw (ap address e) (with_kind-at (view w).holds q _)))

    -- What is thrown says what the last error is.
    pub throw-Says :
        {A : Type 0}
        → Ends sdk good
            (λ r c.
              (r ≡ err (what_of host.null_text (view w).error))
              × (c.holds ≡ (view w).holds)
              × (c.error ≡ (view w).error))
            (throw sdk {A = A})
            w
    unfolding throw
    throw-Says =
        Ends-bind sdk good (exception sdk) _ w exception-Ends
          λ m u v' (said, holds, error). Ends-pure sdk good (err m) u v' (ap err said, holds, error)

    pub throw-Throws :
        {A : Type 0} (h : Holdings) (e : Error)
        → (view w).holds ≡ h
        → (view w).error ≡ some e
        → Ends sdk good (Throws {A = A} host.null_text h e) (throw sdk) w
    throw-Throws h e holds error =
        Ends-weaken sdk good
          (λ r c (said, holds', error').
            (said ∙ ap (λ x. err (what_of host.null_text x)) error, holds' ∙ holds, error' ∙ error))
          throw-Says

    pub throw-Ends :
        {A : Type 0} → Ends sdk good (λ _ c. c.holds ≡ (view w).holds) (throw sdk {A = A}) w
    throw-Ends = Ends-weaken sdk good (λ r c (_, holds, _). holds) throw-Says

  -- A text or the exception, and the client holds what it held.
  pub string_or_throw-Ends :
      (w : Memory sdk) (v : IsCalm sdk good w) (s : Client) (p : Ptr) (b : Bool) (t : Bytes)
      → SaysBy s (pointer p) (view w) b t
      → Ends sdk good (λ r c. c.holds ≡ s.holds) (string_or_throw sdk p) w
  unfolding string_or_throw
  string_or_throw-Ends w v s p true t (zero, same) =
      rw (ap address zero) (Ends-weaken sdk good (λ r c h. h ∙ same) (throw-Ends w v))
  string_or_throw-Ends w v s p false t makes =
      let (ne, free, made) = made_at (a_text t) s (view w) p makes in
      subst
        (λ b.
          Ends sdk good (λ r c. c.holds ≡ s.holds)
            (if b then throw sdk else (do str ← take_string sdk p; pure (ok str))) w)
        (sym (==_ne p 0 ne))
        (Ends-bind sdk good (take_string sdk p) _ w
          (take_string-Ends w v p t
            (ap (λ h. h.kinds p) made ∙ with_kind-at s.holds p (some (a_text t))))
          λ str u v' (_, h, _). Ends-pure sdk good (ok str) u v' (
            h
            ∙ (ap (λ h. with_kind h p none) made
                ∙ with_kind-drop s.holds p (some (a_text t)) free)))
