-- ===== src/Cpp/Builder/Making.antt =====
-- The constructors of `Builder` (src/c2pa.cpp, lines 538 to 552 and 689 to 697), over the contract
-- of the C interface.
use c2pa_c.Common.{
  Bytes, Option, none, some, Result, ok, err, ◌≡◌, ◌≢◌, ◌⊎◌, ◌∙◌, refl, sym, ap, inl, inr, ==_ne,
}
use c2pa_c.Error.{Error}
use c2pa_c.Stream.{Ptr}
use c2pa_c.Sdk.{Sdk}
use c2pa_c.CApi.Building.{c2pa_builder_from_json, c2pa_builder_from_archive}
use c2pa_c.CApi.Session.{Call, pointer, perform}
use c2pa_c.CApi.Protocol.{
  a_builder, a_stream, Holdings, Client, with_kind, Ready, Allowed, Makes, FailsNull, WithError,
  view,
}
use c2pa_c.CApi.Protocol.Clients.{with_kind-at, with_kind-other}
use c2pa_c.CApi.Protocol.Rules.{Memory}
use c2pa_c.Cpp.{Cpp, c_str}
use c2pa_c.Cpp.Ends.{Hosted, what_of, IsCalm, Ends, Ends-pure, Ends-bind, Ends-weaken, Ends-call}
use c2pa_c.Cpp.Iostream.{Iostream, cpp_istream}
use c2pa_c.Cpp.Iostream.Answers.{IsReturning, cpp_istream-Answering}
use c2pa_c.Cpp.Texts.{address, made_at, throw-Throws}
use c2pa_c.Cpp.Scope.Streams.{with_kind-swap, new_beside, with_stream-Ends}
use c2pa_c.Cpp.Builder.{builder_or_throw, builder_new, from_archive}

-- A constructor gives a builder at a new address, or it throws the last error.
abbrev pub Made :
    (null_text : Bytes) → Holdings → Result Ptr Bytes → Holdings → Option Error → Type 0
Made null_text before r after error =
    ((b : Ptr) × (r ≡ ok b)
      × (before.kinds b ≡ none)
      × (after ≡ with_kind before b (some a_builder)))
    ⊎ ((e : Error) × (r ≡ err (what_of null_text (some e))) × (after ≡ before) × (error ≡ some e))

module _ (sdk : Sdk) where
  -- The constructors, with the arguments that they are given.
  pub data Maker : Type 0 where
    from_manifest : (manifest_json : Bytes) → Maker
    from_stream : (archive : Iostream sdk.Env) → Maker

  abbrev pub make : Maker → Cpp sdk Ptr
  make (from_manifest manifest_json) = builder_new sdk manifest_json
  make (from_stream archive) = from_archive sdk archive

  abbrev pub CanMake : Maker → Type 0
  CanMake (from_manifest manifest_json) = Unit
  CanMake (from_stream archive) = (archive.address ≢ 0) × IsReturning archive

module _ (sdk : Sdk) (good : sdk.Signer → Type 0) (host : Hosted sdk good) where
  -- After the call that makes the builder.
  builder_or_throw-Made :
      (s : Client) (b : Ptr) (u : Memory sdk)
      → IsCalm sdk good u
      → Makes s (pointer b) (view u) a_builder ⊎ WithError (FailsNull s (pointer b) (view u))
      → Ends sdk good
          (λ r c. Made host.null_text s.holds r c.holds c.error)
          (builder_or_throw sdk b)
          u
  unfolding builder_or_throw
  builder_or_throw-Made s b u v (inl makes) =
      let (ne, new, there) = made_at a_builder s (view u) b makes in
      rw (==_ne b 0 ne) (Ends-pure sdk good (ok b) u v (inl (b, refl, new, there)))
  builder_or_throw-Made s b u v (inr (e, (said, same, told))) = rw (ap address said) (
      Ends-weaken sdk good (λ r c (t, h, k). inr (e, t, h, k))
        (throw-Throws sdk good host u v s.holds e same told))

  -- What stands besides the adapter.
  beside :
      (p : Ptr) (before : Holdings) (u : Memory sdk) (r : Result Ptr Bytes) (c : Client)
      → before.kinds p ≡ none
      → (view u).holds ≡ with_kind before p (some a_stream)
      → Made host.null_text (view u).holds r c.holds c.error
      → (h : Holdings) × (h.kinds p ≡ none)
        × (c.holds ≡ with_kind h p (some a_stream))
        × Made host.null_text before r h c.error
  beside p before u r c free made (inl (b, said, new, there)) =
      let (apart, new') = new_beside p before b (sym (ap (λ h. h.kinds b) made) ∙ new) in
      (
        with_kind before b (some a_builder),
        with_kind-other before b p (some a_builder) apart ∙ free,
        there
            ∙ (ap (λ h. with_kind h b (some a_builder)) made
                ∙ with_kind-swap before p b (some a_stream) (some a_builder) (λ e. apart (sym e))),
        inl (b, said, new', refl),
      )
  beside p before u r c free made (inr (e, said, same, told)) =
      (before, free, same ∙ made, inr (e, said, refl, told))

  pub make-Made :
      (m : Maker sdk) (w : Memory sdk)
      → IsCalm sdk good w
      → CanMake sdk m
      → Ends sdk good (λ r c. Made host.null_text (view w).holds r c.holds c.error) (make sdk m) w
  unfolding builder_new from_archive perform Ready Allowed
  make-Made (from_manifest json) w v can =
      Ends-bind sdk good (c2pa_builder_from_json sdk (c_str json)) _ w
        (Ends-call sdk good host (Call.builder_from_json (c_str json)) pointer
          (c2pa_builder_from_json sdk (c_str json)) w refl v tt tt)
        λ b u v' outcome. builder_or_throw-Made (view w) b u v' outcome
  make-Made (from_stream archive) w v (ne, able) =
      with_stream-Ends sdk good host (Made host.null_text (view w).holds) (cpp_istream archive) _ w
        v ne (cpp_istream-Answering archive able)
        λ p u v' free made.
          Ends-bind sdk good (c2pa_builder_from_archive sdk p) _ u
            (Ends-call sdk good host (Call.builder_from_archive p) pointer
              (c2pa_builder_from_archive sdk p) u refl v' tt
              (ap (λ h. h.kinds p) made ∙ with_kind-at (view w).holds p (some a_stream)))
            λ b x v'' outcome.
              Ends-weaken sdk good (λ r c told. beside p (view w).holds u r c free made told)
                (builder_or_throw-Made (view u) b x v'' outcome)
