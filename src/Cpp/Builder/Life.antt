-- ===== src/Cpp/Builder/Life.antt =====
-- The life of a `Builder`, from a constructor to the end of its scope (src/c2pa.cpp, lines 538 to
-- 593 and 681 to 697, and include/c2pa.hpp, line 295).
use c2pa_c.Common.{
  List, length, replicate, Bytes, none, some, Result, ok, err, ◌>>=◌, pure, ◌≡◌, ◌⊎◌, ◌∙◌, refl, ap,
  inl, inr,
}
use c2pa_c.Error.{Error}
use c2pa_c.Stream.{Ptr}
use c2pa_c.Sdk.{Sdk}
use c2pa_c.CApi.Protocol.{a_builder, with_kind, view}
use c2pa_c.CApi.Protocol.Clients.{with_kind-at, with_kind-drop}
use c2pa_c.CApi.Protocol.Rules.{Memory}
use c2pa_c.Cpp.{Cpp}
use c2pa_c.Cpp.Ends.{Hosted, what_of, IsCalm, EndsOr, returns, faults}
use c2pa_c.Cpp.Builder.Making.{Maker, make, CanMake, make-Made}
use c2pa_c.Cpp.Builder.Members.{Member}
use c2pa_c.Cpp.Builder.Playing.{builder_scope, CanUseAll, Throws, builder_scope-Ends}

module _ (sdk : Sdk) where
  -- What follows the constructor: the scope of the builder, or an exception.
  unfoldable within :
      List (Member sdk) → Result Ptr Bytes → Cpp sdk (List (Result (Unit {0}) Bytes))
  unfolding builder_scope
  within ms (err what) = pure (err what)
  within ms (ok b) = do results ← builder_scope sdk ms b; pure (ok results)

  unfoldable pub builder_life :
      Maker sdk → List (Member sdk) → Cpp sdk (List (Result (Unit {0}) Bytes))
  unfolding within
  builder_life m ms = do made ← make sdk m; within ms made

  -- The constructor has made a builder, and one of the members throws.
  abbrev pub Discards : (null_text : Bytes) → Maker sdk → List (Member sdk) → Memory sdk → Type 0
  Discards null_text m ms w =
      (b : Ptr) × (x : Memory sdk) × (make sdk m w ≡ some (ok b, x))
      × ((u : Memory sdk) × Throws sdk null_text b (view x).holds ms x u)

-- With an SDK that answers, a standard library that has a text for null, and a memory that is
-- valid: a constructor of the builder, any members that change the builder, one after the other,
-- where the client catches their exceptions and goes on, and the end of the scope. The streams
-- have addresses, and their operations return. All members return without an exception, and in
-- the end the client holds what it held. Or the constructor throws the last error, and the client
-- holds what it held. Or the constructor makes a builder and a member, after others that have
-- returned, throws the last error and the builder is gone, and the run faults. What is thrown is
-- the text of the error, or what the standard library makes of null where that has a zero byte.
pub builder_life-Ends :
    (sdk : Sdk) (good : sdk.Signer → Type 0)
    → (host : Hosted sdk good) → (m : Maker sdk) (ms : List (Member sdk)) (w : Memory sdk)
    → IsCalm sdk good w
    → CanMake sdk m
    → CanUseAll sdk ms
    → EndsOr sdk good
        (Discards sdk host.null_text m ms w)
        (λ r c.
          ((r ≡ ok (replicate (length ms) (ok tt))) × (c.holds ≡ (view w).holds))
          ⊎ ((e : Error) × (r ≡ err (what_of host.null_text (some e)))
              × (c.holds ≡ (view w).holds)
              × (c.error ≡ some e)))
        (builder_life sdk m ms)
        w
unfolding builder_life within
builder_life-Ends sdk good host m ms w v can can_all = elim (make-Made sdk good host m w v can) [
  | faults why stuck ↦ elim why [ ]
  | returns r u run v' (inr (e, said, same, told)) ↦
      returns (err (what_of host.null_text (some e))) u (rw (run, ◌>>=◌) (rw said refl)) v'
        (inr (e, refl, same, told))
  | returns r x run v' (inl (b, said, new, made)) ↦
      let here = run ∙ ap (λ r. some (r, x)) said in
      elim (builder_scope-Ends sdk good host b (view x).holds
        (ap (λ h. h.kinds b) made ∙ with_kind-at (view w).holds b (some a_builder)) ms x v' refl
        can_all) [
          | faults throws stuck ↦
              faults (b, x, here, throws) (rw (here, ◌>>=◌) (rw (stuck, ◌>>=◌) refl))
          | returns rs u more v'' (all, gone) ↦
              returns (ok rs) u (rw (here, ◌>>=◌) (rw (more, ◌>>=◌) refl)) v'' (
                inl (
                  ap ok all,
                  gone
                      ∙ (ap (λ h. with_kind h b none) made
                          ∙ with_kind-drop (view w).holds b (some a_builder) new),
                ))
        ]
]
