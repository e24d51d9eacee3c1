-- ===== src/Cpp/Builder/Members.antt =====
-- The members of `Builder` that change it (src/c2pa.cpp, lines 554 to 593 and 681 to 687), on a
-- builder that is there, and on one that is gone.
use c2pa_c.Common.{
  Bytes, Option, none, some, ok, ◌>>=◌, ◌>>◌, pure, ◌≡◌, ◌≢◌, ◌∙◌, refl, sym, ap, inl, arith,
}
use c2pa_c.Stream.{Ptr, CStream}
use c2pa_c.Memory.{seen, from_raw}
use c2pa_c.Memory.Laws.{from_raw-dead}
use c2pa_c.Sdk.{Sdk, Block, builder, reader, signer, stream, c_string, boxed_slice, as_builder}
use c2pa_c.Sdk.Calm.{Answering}
use c2pa_c.CApi.{Api}
use c2pa_c.CApi.Building.{
  c2pa_builder_set_no_embed, c2pa_builder_set_remote_url, c2pa_builder_add_resource,
  c2pa_builder_add_ingredient_from_stream, c2pa_builder_to_archive,
}
use c2pa_c.CApi.Streams.{c2pa_create_stream}
use c2pa_c.CApi.Session.{Call, pointer, status, done, perform}
use c2pa_c.CApi.Protocol.{a_builder, a_stream, with_kind, Ready, Allowed, view, kind_at}
use c2pa_c.CApi.Protocol.Rules.{Memory}
use c2pa_c.Cpp.{Cpp, c_str}
use c2pa_c.Cpp.Ends.{Hosted, IsCalm, Ends, returns, faults, Ends-pure, Ends-bind, Ends-call}
use c2pa_c.Cpp.Iostream.{cpp_istream, cpp_ostream}
use c2pa_c.Cpp.Iostream.Answers.{IsReturning, cpp_istream-Answering, cpp_ostream-Answering}
use c2pa_c.Cpp.Texts.{made_at}
use c2pa_c.Cpp.Scope.{with_stream}
use c2pa_c.Cpp.Builder.{set_no_embed, set_remote_url, add_resource, add_ingredient, to_archive}
use c2pa_c.Cpp.Builder.Filling.{
  Filling, resource, ingredient, archive, fill, stream_of, Filled, fill-Filled,
  done_or_throw-Filled,
}

module _ (sdk : Sdk) where
  -- The members, with the arguments that they are given.
  pub data Member : Type 0 where
    no_embed : Member
    remote_url : (url : Bytes) → Member
    filled : Filling sdk → Member

  abbrev pub act : Member → Ptr → Cpp sdk (Unit {0})
  act no_embed b = do set_no_embed sdk b; pure (ok tt)
  act (remote_url url) b = set_remote_url sdk b url
  act (filled m) b = fill sdk m b

  -- A stream that a member is given has an address, and its operations return.
  abbrev pub CanUse : Member → Type 0
  CanUse (filled m) = ((stream_of sdk m).address ≢ 0) × IsReturning (stream_of sdk m)
  CanUse _ = Unit

  -- What is no builder is not taken for one.
  seen-as_builder :
      (c : Option (Block sdk)) → kind_at c ≢ some a_builder → seen (as_builder sdk) c ≡ none
  unfolding as_builder
  seen-as_builder none ne = refl
  seen-as_builder (some (builder x)) ne = elim (ne refl) [ ]
  seen-as_builder (some (reader x)) ne = refl
  seen-as_builder (some (signer x)) ne = refl
  seen-as_builder (some (stream x)) ne = refl
  seen-as_builder (some (c_string x)) ne = refl
  seen-as_builder (some (boxed_slice x)) ne = refl

module _ (sdk : Sdk) (good : sdk.Signer → Type 0) (host : Hosted sdk good) (b : Ptr)
    (w : Memory sdk) (v : IsCalm sdk good w) where
  -- On a live builder.
  pub act-Filled :
      (view w).holds.kinds b ≡ some a_builder
      → (m : Member sdk) → CanUse sdk m
      → Ends sdk good
          (λ r c. Filled host.null_text b (view w).holds r c.holds c.error)
          (act sdk m b)
          w
  unfolding set_no_embed set_remote_url perform Ready Allowed
  act-Filled live no_embed can =
      Ends-bind sdk good (c2pa_builder_set_no_embed sdk b) _ w
        (Ends-call sdk good host (Call.builder_set_no_embed b) (λ _. done)
          (c2pa_builder_set_no_embed sdk b) w refl v tt live)
        λ _ u v' (_, same). Ends-pure sdk good (ok tt) u v' (inl (refl, same))
  act-Filled live (remote_url url) can =
      Ends-bind sdk good (c2pa_builder_set_remote_url sdk b (c_str url)) _ w
        (Ends-call sdk good host (Call.builder_set_remote_url b (c_str url)) status
          (c2pa_builder_set_remote_url sdk b (c_str url)) w refl v tt live)
        λ result u v' kept. done_or_throw-Filled sdk good host b (view w) result u v' (inl kept)
  act-Filled live (filled m) (ne, able) = fill-Filled sdk good host b w v live m ne able

  gone_from :
      (u : Memory sdk)
      → (view u).holds.kinds b ≢ some a_builder
      → from_raw (as_builder sdk) b u ≡ none
  gone_from u gone = from_raw-dead (as_builder sdk) u b (seen-as_builder sdk (u.cells b) gone)

  module _ (gone : (view w).holds.kinds b ≢ some a_builder) where
    -- A scope of a stream with a body that wants the builder.
    with_stream-stuck :
        {A : Type 0} (c : CStream sdk.Env) (body : Ptr → Api sdk A)
        → c.context ≢ 0
        → Answering c
        → ((p : Ptr) (u : Memory sdk) → from_raw (as_builder sdk) b u ≡ none → body p u ≡ none)
        → with_stream sdk c body w ≡ none
    unfolding with_stream perform Ready Allowed
    with_stream-stuck c body ne answers stuck =
        elim (Ends-call sdk good host {bad = ⊥} (Call.create_stream c) pointer
          (c2pa_create_stream sdk c) w refl v answers ne) [
            | faults why _ ↦ elim why [ ]
            | returns p u run v' makes ↦
                let (_, _, made) = made_at a_stream (view w) (view u) p makes in
                rw (run, ◌>>=◌)
                  (rw (
                    stuck p u (gone_from u λ e. still_gone p (ap (λ h. h.kinds b) (sym made) ∙ e)),
                    ◌>>=◌,
                  ))
          ]
      where
        still_gone :
            (p : Ptr) → (with_kind (view w).holds p (some a_stream)).kinds b ≢ some a_builder
        still_gone p e = ground arith

    -- On a builder that is gone.
    pub act-stuck : (m : Member sdk) → CanUse sdk m → act sdk m b w ≡ none
    unfolding set_no_embed set_remote_url add_resource add_ingredient to_archive
        c2pa_builder_set_no_embed c2pa_builder_set_remote_url c2pa_builder_add_resource
        c2pa_builder_add_ingredient_from_stream c2pa_builder_to_archive
    act-stuck no_embed can = rw (gone_from w gone, ◌>>=◌) refl
    act-stuck (remote_url url) can = rw (gone_from w gone, ◌>>=◌) refl
    act-stuck (filled (resource uri source)) (ne, able) =
        with_stream-stuck (cpp_istream source) _ ne (cpp_istream-Answering source able)
          λ p u stuck. rw (stuck, ◌>>=◌) refl
    act-stuck (filled (ingredient json format source)) (ne, able) =
        with_stream-stuck (cpp_istream source) _ ne (cpp_istream-Answering source able)
          λ p u stuck. rw (stuck, ◌>>=◌) refl
    act-stuck (filled (archive dest)) (ne, able) =
        with_stream-stuck (cpp_ostream dest) _ ne (cpp_ostream-Answering dest able)
          λ p u stuck. rw (stuck, ◌>>=◌) refl
