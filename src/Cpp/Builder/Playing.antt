-- ===== src/Cpp/Builder/Playing.antt =====
-- Members of a `Builder` one after the other, and the end of its scope (src/c2pa.cpp, and the
-- destructor in include/c2pa.hpp, line 295).
use c2pa_c.Common.{
  List, [], ◌∷◌, length, replicate, Bytes, none, some, Result, ok, err, ◌>>=◌, ◌>>◌, pure, ◌≡◌, ◌∙◌,
  refl, ap, inl, inr,
}
use c2pa_c.Error.{Error}
use c2pa_c.Stream.{Ptr}
use c2pa_c.Sdk.{Sdk}
use c2pa_c.CApi.{Api}
use c2pa_c.CApi.Building.{c2pa_builder_free}
use c2pa_c.CApi.Session.{Call, done, perform}
use c2pa_c.CApi.Protocol.{a_builder, Holdings, with_kind, Ready, Allowed, view}
use c2pa_c.CApi.Protocol.Clients.{with_kind-at}
use c2pa_c.CApi.Protocol.Rules.{Memory}
use c2pa_c.CApi.Protocol.Twice.{free-lost, not_null}
use c2pa_c.Cpp.Ends.{
  Hosted, what_of, IsCalm, EndsOr, returns, faults, Ends-pure, Ends-bind, Ends-call,
}
use c2pa_c.Cpp.Builder.{builder_delete}
use c2pa_c.Cpp.Builder.Members.{Member, act, CanUse, act-Filled, act-stuck}

module _ (sdk : Sdk) where
  -- Members, one after the other. The client catches the exceptions and goes on.
  unfoldable pub act_all : List (Member sdk) → Ptr → Api sdk (List (Result (Unit {0}) Bytes))
  act_all [] b = pure []
  act_all (m ∷ ms) b = do result ← act sdk m b; results ← act_all ms b; pure (result ∷ results)

  -- The members, and the end of the scope of the builder.
  unfoldable pub builder_scope : List (Member sdk) → Ptr → Api sdk (List (Result (Unit {0}) Bytes))
  unfolding act_all builder_delete
  builder_scope ms b = do results ← act_all ms b; builder_delete sdk b; pure results

  abbrev pub CanUseAll : List (Member sdk) → Type 0
  CanUseAll [] = Unit
  CanUseAll (m ∷ ms) = CanUse sdk m × CanUseAll ms

  -- One of the members throws the last error in a run from the first memory, the builder is gone,
  -- and the run is at the second memory. The members before it have returned.
  pub data Throws (null_text : Bytes) (b : Ptr) (before : Holdings)
      : List (Member sdk) → Memory sdk → Memory sdk → Type 0 where
    now :
        (m : Member sdk) (ms : List (Member sdk)) (w u : Memory sdk) (e : Error)
        → act sdk m b w ≡ some (err (what_of null_text (some e)), u)
        → (view u).error ≡ some e
        → (view u).holds ≡ with_kind before b none
        → Throws null_text b before (m ∷ ms) w u
    later :
        (m : Member sdk) (ms : List (Member sdk)) (w x u : Memory sdk)
        → act sdk m b w ≡ some (ok tt, x)
        → Throws null_text b before ms x u
        → Throws null_text b before (m ∷ ms) w u

module _ (sdk : Sdk) (good : sdk.Signer → Type 0) (host : Hosted sdk good) (b : Ptr)
    (before : Holdings) (live : before.kinds b ≡ some a_builder) where
  lost-gone :
      (u : Memory sdk) → (view u).holds ≡ with_kind before b none → (view u).holds.kinds b ≡ none
  lost-gone u lost = ap (λ h. h.kinds b) lost ∙ with_kind-at before b none

  -- All members return, or the last one throws, or one does not return.
  data Played (ms : List (Member sdk)) (w : Memory sdk) : Type 0 where
    all_returned :
        (u : Memory sdk)
        → act_all sdk ms b w ≡ some (replicate (length ms) (ok tt), u)
        → IsCalm sdk good u
        → (view u).holds ≡ before
        → Played ms w
    last_threw :
        (rs : List (Result (Unit {0}) Bytes)) (u : Memory sdk)
        → act_all sdk ms b w ≡ some (rs, u)
        → Throws sdk host.null_text b before ms w u
        → (view u).holds ≡ with_kind before b none
        → Played ms w
    stopped :
        (u : Memory sdk)
        → Throws sdk host.null_text b before ms w u
        → act_all sdk ms b w ≡ none
        → Played ms w

  -- A member returns, and the others are played.
  after_return :
      (m : Member sdk) (ms : List (Member sdk)) (w x : Memory sdk)
      → act sdk m b w ≡ some (ok tt, x)
      → Played ms x
      → Played (m ∷ ms) w
  unfolding act_all
  after_return m ms w x run (all_returned u more v same) =
      all_returned u (rw (run, ◌>>=◌) (rw (more, ◌>>=◌) refl)) v same
  after_return m ms w x run (last_threw rs u more throws lost) =
      last_threw (ok tt ∷ rs) u (rw (run, ◌>>=◌) (rw (more, ◌>>=◌) refl))
        (later m ms w x u run throws) lost
  after_return m ms w x run (stopped u throws stuck) =
      stopped u (later m ms w x u run throws) (rw (run, ◌>>=◌) (rw (stuck, ◌>>=◌) refl))

  -- A member throws, and it is the last one, or the next one faults.
  after_throw :
      (m : Member sdk) (ms : List (Member sdk)) (w x : Memory sdk) (e : Error)
      → act sdk m b w ≡ some (err (what_of host.null_text (some e)), x)
      → IsCalm sdk good x
      → CanUseAll sdk ms
      → (view x).error ≡ some e
      → (view x).holds ≡ with_kind before b none
      → Played (m ∷ ms) w
  unfolding act_all
  after_throw m [] w x e run v can told lost =
      last_threw (err (what_of host.null_text (some e)) ∷ []) x (rw (run, ◌>>=◌) refl)
        (now m [] w x e run told lost) lost
  after_throw m (next ∷ ms) w x e run v (can, _) told lost =
      let gone = lost-gone x lost in
      stopped x (now m (next ∷ ms) w x e run told lost) (
        rw (run, ◌>>=◌)
          (rw (act-stuck sdk good host b x v (λ e. cc (gone, e)) next can, ◌>>=◌) refl))

  act_all-Played :
      (ms : List (Member sdk)) (w : Memory sdk)
      → IsCalm sdk good w
      → (view w).holds ≡ before
      → CanUseAll sdk ms
      → Played ms w
  unfolding act_all
  act_all-Played [] w v same can = all_returned w refl v same
  act_all-Played (m ∷ ms) w v same (can, rest) =
      elim (act-Filled sdk good host b w v (ap (λ h. h.kinds b) same ∙ live) m can) [
        | faults why stuck ↦ elim why [ ]
        | returns r x run v' (inl (said, kept)) ↦
            after_return m ms w x (run ∙ ap (λ r. some (r, x)) said)
              (act_all-Played ms x v' (kept ∙ same) rest)
        | returns r x run v' (inr (e, said, lost, told)) ↦
            after_throw m ms w x e (run ∙ ap (λ r. some (r, x)) said) v' rest told
              (lost ∙ ap (λ h. with_kind h b none) same)
      ]

  -- The end of the scope.
  pub builder_scope-Ends :
      (ms : List (Member sdk)) (w : Memory sdk)
      → IsCalm sdk good w
      → (view w).holds ≡ before
      → CanUseAll sdk ms
      → EndsOr sdk good
          ((u : Memory sdk) × Throws sdk host.null_text b before ms w u)
          (λ rs c. (rs ≡ replicate (length ms) (ok tt)) × (c.holds ≡ with_kind before b none))
          (builder_scope sdk ms b)
          w
  unfolding builder_scope builder_delete perform Ready Allowed
  builder_scope-Ends ms w v same can = elim (act_all-Played ms w v same can) [
    | stopped u throws stuck ↦ faults (u, throws) (rw (stuck, ◌>>=◌) refl)
    | last_threw rs u run throws lost ↦
        faults (u, throws)
          (rw (run, ◌>>=◌)
            (rw
              (
                free-lost sdk good u b
                    (not_null sdk good w v.valid b (ap (λ h. h.kinds b) same ∙ live))
                    (lost-gone u lost),
                ◌>>=◌,
              )
              refl))
    | all_returned u run v' kept ↦
        Ends-bind sdk good {P = λ rs c. (rs ≡ replicate (length ms) (ok tt)) × (c.holds ≡ before)}
          (act_all sdk ms b) _ w (returns (replicate (length ms) (ok tt)) u run v' (refl, kept))
          λ rs x v'' (all, held).
            Ends-bind sdk good (c2pa_builder_free sdk b) _ x
              (Ends-call sdk good host (Call.builder_free b) (λ _. done) (c2pa_builder_free sdk b) x
                refl v'' tt (inr (ap (λ h. h.kinds b) held ∙ live)))
              λ _ y v3 (_, gone, _).
                Ends-pure sdk good rs y v3 (all, gone ∙ ap (λ h. with_kind h b none) held)
  ]
