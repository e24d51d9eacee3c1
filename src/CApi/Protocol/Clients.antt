-- ===== src/CApi/Protocol/Clients.antt =====
-- Clients that make a builder, use it and free it (src/c_api.rs): here, one that adds a resource.
pub mod Signing
use c2pa_c.Common.{
  Bytes, none, some, is_negative, ◌==◌, if◌then◌else◌, ◌≡◌, ◌∙◌, ◌≢◌, ap, inl, inr, refl, arith,
  ==_ne, ==_refl, Option,
}
use c2pa_c.Stream.{Ptr}
use c2pa_c.Memory.Laws.{IsValid, Every}
use c2pa_c.Sdk.{Sdk}
use c2pa_c.Sdk.Calm.{Calm, IsSound}
use c2pa_c.CApi.{CStr, null}
use c2pa_c.CApi.Session.{Call, Reply, pointer, status}
use c2pa_c.CApi.Protocol.{
  Kind, a_builder, a_stream, a_signer, Holdings, Client, with_kind, Ready, Allowed, view,
}
use c2pa_c.CApi.Protocol.Rules.{Memory, holdings_eq}
use c2pa_c.CApi.Protocol.Program.{Program, finish, call, play, Follows, play-returns}

module _ {sdk : Sdk} where
  -- Frees the builder after a success; a failure has freed it.
  abbrev pub after_filling : Ptr → Reply → Program sdk
  after_filling p (status code) =
      if is_negative code then finish else call (Call.builder_free p) λ _. finish
  after_filling p _ = finish

  abbrev pub fill : CStr → Ptr → Reply → Program sdk
  fill uri stream (pointer p) =
      if p == null then finish else call (Call.builder_add_resource p uri stream) (after_filling p)
  fill uri stream _ = finish

  abbrev pub fill_once : CStr → CStr → Ptr → Program sdk
  fill_once json uri stream = call (Call.builder_from_json json) (fill uri stream)

-- A builder that the client just got.
pub with_kind-at : (h : Holdings) (p : Ptr) (k : Option Kind) → (with_kind h p k).kinds p ≡ k
with_kind-at h p k = rw (==_refl p)

pub with_kind-other :
    (h : Holdings) (p q : Ptr) (k : Option Kind) → p ≢ q → (with_kind h p k).kinds q ≡ h.kinds q
with_kind-other h p q k ne = rw (==_ne p q ne)

pub with_kind-drop :
    (h : Holdings) (p : Ptr) (k : Option Kind)
    → h.kinds p ≡ none
    → with_kind (with_kind h p k) p none ≡ h
with_kind-drop h p k e = holdings_eq (λ q. ground (arith, e)) refl

pub new_apart :
    (h : Holdings) (p q : Ptr) {k : Kind} → h.kinds p ≡ none → h.kinds q ≡ some k → p ≢ q
new_apart h p q e e' same = cc (ap h.kinds same)

module _ (sdk : Sdk) (good : sdk.Signer → Type 0) (before : Holdings) (p i : Ptr)
    (here : before.kinds p ≡ none) (input : before.kinds i ≡ some a_stream) where
  abbrev Balanced : Client → Type 0
  Balanced s = s.holds ≡ before

  after_filling-Follows :
      (uri : CStr) (s s' : Client) (r : Reply)
      → s.holds ≡ with_kind before p (some a_builder)
      → Allowed {sdk = sdk} (Call.builder_add_resource p uri i) s r s'
      → Follows sdk good Balanced (after_filling p r) s'
  unfolding Allowed Follows Ready
  after_filling-Follows none s s' r h (e, lost, _) =
      rw e (lost ∙ rw h (with_kind-drop before p (some a_builder) here))
  after_filling-Follows (some uri) s s' r h (inr (_, (e, lost, _))) =
      rw e (lost ∙ rw h (with_kind-drop before p (some a_builder) here))
  after_filling-Follows (some uri) s s' r h (inl (e, same)) = rw e (
    inr (rw (same, h) (with_kind-at before p (some a_builder))),
    tt,
    λ r s2 (_, freed, _). freed ∙ rw (same, h) (with_kind-drop before p (some a_builder) here),
  )

module _ (sdk : Sdk) (good : sdk.Signer → Type 0) where
  fill_once-Follows :
      (json uri : CStr) (i : Ptr) (s : Client)
      → s.holds.kinds i ≡ some a_stream
      → Follows sdk good (λ s'. s'.holds ≡ s.holds) (fill_once json uri i) s
  unfolding Follows Ready Allowed
  fill_once-Follows none uri i s input = (tt, tt, λ r s' (e, same, _). rw e same)
  fill_once-Follows (some json) uri i s input = (tt, tt, by_outcome)
    where
      by_outcome :
          (r : Reply) (s' : Client)
          → Allowed {sdk = sdk} (Call.builder_from_json (some json)) s r s'
          → Follows sdk good (λ s'. s'.holds ≡ s.holds) (fill uri i r) s'
      by_outcome r s' (inr (_, (e, same, _))) = rw e same
      by_outcome r s' (inl (p, e, ne, here, made)) = rw e (
          rw (==_ne p 0 ne) (
            (
              rw made (with_kind-at s.holds p (some a_builder)),
              rw made (rw (==_ne p i (new_apart s.holds p i here input)) input),
            ),
            tt,
            λ r s2. after_filling-Follows sdk good s.holds p i here input uri s' s2 r made,
          ))

  -- A client that makes a builder, gives it a resource, and frees the builder unless that failed,
  -- on any two texts, null included, and on a live stream, with an SDK that answers, in a valid
  -- memory whose streams answer and whose signers are good: it runs to its end and then holds what
  -- it held before.
  pub fill_once-balanced :
      Calm sdk good
      → (w : Memory sdk) → IsValid w
      → Every (IsSound sdk good) w
      → (json uri : CStr) (i : Ptr) → (view w).holds.kinds i ≡ some a_stream
      → (w' : Memory sdk) × (play sdk (fill_once json uri i) w ≡ some (tt, w'))
        × ((view w').holds ≡ (view w).holds)
  fill_once-balanced calm w v s json uri i input =
      let (w', run, _, _, same) =
        play-returns sdk good calm (λ s'. s'.holds ≡ (view w).holds) (fill_once json uri i) w v s
          (fill_once-Follows json uri i (view w) input) in
      (w', run, same)
