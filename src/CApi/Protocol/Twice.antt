-- ===== src/CApi/Protocol/Twice.antt =====
-- A failure to fill a builder (src/c_api.rs, and the destructor of `Builder` in include/c2pa.hpp).
use c2pa_c.Common.{none, some, ◌≡◌, ◌≢◌, ◌⊎◌, ◌>>=◌, inl, inr, refl, ap, ◌∙◌, Option, ==_ne}
use c2pa_c.Stream.{Ptr}
use c2pa_c.Memory.{seen}
use c2pa_c.Memory.Laws.{IsValid, Every, from_raw-dead}
use c2pa_c.Sdk.{Sdk, Block, as_builder}
use c2pa_c.Sdk.Calm.{Calm, IsSound}
use c2pa_c.CApi.{CStr}
use c2pa_c.CApi.Building.{c2pa_builder_free}
use c2pa_c.CApi.Session.{Call, Reply, perform}
use c2pa_c.CApi.Protocol.{Client, Succeeds, a_builder, with_kind, Ready, Allowed, view, kind_at}
use c2pa_c.CApi.Protocol.Rules.{Memory}
use c2pa_c.CApi.Protocol.Clients.{with_kind-at}
use c2pa_c.CApi.Protocol.Soundness.{perform-Allowed}

-- The calls that fill the builder at an address.
pub data Fills {sdk : Sdk} (p : Ptr) : Call sdk → Type 0 where
  set_remote_url : (url : CStr) → Fills p (Call.builder_set_remote_url p url)
  add_resource : (uri : CStr) (i : Ptr) → Fills p (Call.builder_add_resource p uri i)
  add_ingredient :
      (json format : CStr) (i : Ptr) → Fills p (Call.builder_add_ingredient p json format i)
  to_archive : (o : Ptr) → Fills p (Call.builder_to_archive p o)

module _ {sdk : Sdk} where
  -- Such a call either keeps the holdings and says 0, or fails and loses the builder.
  Fills-Outcome :
      {c : Call sdk} (p : Ptr) (s s' : Client) (r : Reply)
      → Fills p c
      → Allowed c s r s'
      → Succeeds s r s' ⊎ (s'.holds ≡ with_kind s.holds p none)
  unfolding Allowed
  Fills-Outcome p s s' r (set_remote_url none) (_, lost, _) = inr lost
  Fills-Outcome p s s' r (set_remote_url (some u)) kept = inl kept
  Fills-Outcome p s s' r (add_resource none i) (_, lost, _) = inr lost
  Fills-Outcome p s s' r (add_resource (some u) i) (inl kept) = inl kept
  Fills-Outcome p s s' r (add_resource (some u) i) (inr (_, (_, lost, _))) = inr lost
  Fills-Outcome p s s' r (add_ingredient none f i) (_, lost, _) = inr lost
  Fills-Outcome p s s' r (add_ingredient (some j) none i) (_, lost, _) = inr lost
  Fills-Outcome p s s' r (add_ingredient (some j) (some f) i) (inl kept) = inl kept
  Fills-Outcome p s s' r (add_ingredient (some j) (some f) i) (inr (_, (_, lost, _))) = inr lost
  Fills-Outcome p s s' r (to_archive o) (inl kept) = inl kept
  Fills-Outcome p s s' r (to_archive o) (inr (_, (_, lost, _))) = inr lost

  Fills-builder :
      {c : Call sdk} (p : Ptr) (s : Client)
      → Fills p c
      → Ready c s
      → s.holds.kinds p ≡ some a_builder
  unfolding Ready
  Fills-builder p s (set_remote_url u) h = h
  Fills-builder p s (add_resource u i) (h, _) = h
  Fills-builder p s (add_ingredient j f i) (h, _) = h
  Fills-builder p s (to_archive o) (h, _) = h

module _ (sdk : Sdk) (good : sdk.Signer → Type 0) where
  -- A freed address, freed again.
  pub free-lost :
      (w : Memory sdk) (p : Ptr)
      → p ≢ 0
      → (view w).holds.kinds p ≡ none
      → c2pa_builder_free sdk p w ≡ none
  unfolding c2pa_builder_free
  free-lost w p ne lost =
      rw (==_ne p 0 ne) (rw (from_raw-dead (as_builder sdk) w p (by_cell (w.cells p) lost), ◌>>=◌))
    where
      by_cell : (c : Option (Block sdk)) → kind_at c ≡ none → seen (as_builder sdk) c ≡ none
      by_cell none e = refl
      by_cell (some b) e = cc

  pub not_null :
      (w : Memory sdk) → IsValid w → (p : Ptr) → (view w).holds.kinds p ≡ some a_builder → p ≢ 0
  not_null w v p h e = cc (rw (e, v.null_free) at h)

  -- With an SDK that answers, in a valid memory whose streams answer and whose signers are good: a
  -- call that sets the URL of a builder, adds a resource or an ingredient to it, or archives it,
  -- on live objects and any texts, null included, returns; either with 0, and then the
  -- client holds what it held, or `c2pa_builder_free` on the same builder is undefined behaviour.
  pub failed-freed_twice :
      Calm sdk good
      → (w : Memory sdk) → IsValid w
      → Every (IsSound sdk good) w
      → (c : Call sdk) (p : Ptr) → Fills p c
      → Ready c (view w)
      → (r : Reply) × (w' : Memory sdk) × (perform sdk c w ≡ some (r, w'))
        × (Succeeds (view w) r (view w') ⊎ (perform sdk (Call.builder_free p) w' ≡ none))
  unfolding perform
  failed-freed_twice calm w v s c p fills ready =
      let step = perform-Allowed sdk good calm w v s c ready in
      let outcome = Fills-Outcome p (view w) (view step.after) step.result fills step.meets in
      (
        step.result,
        step.after,
        step.ran,
        elim outcome [
          | inl kept ↦ inl kept
          | inr lost ↦
              let gone =
                free-lost step.after p (not_null w v p (Fills-builder p (view w) fills ready))
                  (ap (λ h. h.kinds p) lost ∙ with_kind-at (view w).holds p none) in
              inr (rw (gone, ◌>>=◌))
        ],
      )
