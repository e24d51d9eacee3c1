-- ===== src/CApi/Protocol/Rules.antt =====
-- Rules for what a run of an exported function (src/c_api.rs) gives to the client.
use c2pa_c.Common.{
  suc, Bytes, Bool, true, false, Option, none, some, Result, ok, err, ◌>>=◌, pure, ◌≡◌, ◌≢◌, ◌⊎◌,
  inl, inr, refl, arith, ==_ne, ==_eq, ◌==◌, if◌then◌else◌,
}
use mathlib.Core.Path.{fun_ext}
use c2pa_c.Error.{Error}
use c2pa_c.Error.Convert.{C2paError, from_c2pa_error}
use c2pa_c.Error.Last.{Thread}
use c2pa_c.Stream.{Ptr}
use c2pa_c.Memory.{World, update, object_at, from_raw, alloc, fail_with}
use c2pa_c.Memory.Laws.{IsValid, from_raw-live, live_bounds}
use c2pa_c.Sdk.{Sdk, Block, c_string}
use c2pa_c.CApi.{Api, null, minus_one, has_zero, to_c_string, sdk_error}
use c2pa_c.CApi.Session.{Reply, pointer, status, done}
use c2pa_c.CApi.Protocol.{
  Kind, Holdings, Client, with_kind, kind_at, kind_of, view, WithError, Frees, Makes, Says, SaysBy,
  FailsNull,
}
use c2pa_c.CApi.Ownership.{without}

-- Holdings that agree at every address.
pub holdings_eq :
    {h h' : Holdings} → ((q : Ptr) → h.kinds q ≡ h'.kinds q) → h.variables ≡ h'.variables → h ≡ h'
holdings_eq e v = λ i. record { kinds = fun_ext e i; variables = v i }

module _ (sdk : Sdk) where
  abbrev pub Memory : Type 0
  Memory = World sdk.Env (Block sdk)

  -- The run returns, and the client may see what it then sees.
  pub record Runs {A : Type 0} (make : A → Reply) (P : Reply → Client → Type 0)
      (x : Option (A × Memory)) : Type 0 where
    pub result : A
    pub after : Memory
    pub ran : x ≡ some (result, after)
    pub meets : P (make result) (view after)

  module _ {A : Type 0} {make : A → Reply} {P : Reply → Client → Type 0} where
    pub Runs-replies :
        {x : Option (A × Memory)}
        → Runs make P x
        → Runs (λ r. r) P (elim x [ none ↦ none | some (a, w') ↦ some (make a, w') ])
    Runs-replies r = record {
      result = make r.result;
      after = r.after;
      ran = rw r.ran;
      meets = r.meets;
    }

    -- What holds of the end may be said in other words.
    pub Runs-weaken :
        {Q : Reply → Client → Type 0} {x : Option (A × Memory)}
        → ((r : Reply) (s : Client) → P r s → Q r s)
        → Runs make P x
        → Runs make Q x
    Runs-weaken f r = record {
      result = r.result;
      after = r.after;
      ran = r.ran;
      meets = f _ _ r.meets;
    }

  -- What an update does to the kinds.
  pub kind_at-update :
      (cells : Ptr → Option (Block sdk)) (p : Ptr) (c : Option (Block sdk)) (q : Ptr)
      → kind_at (update cells p c q) ≡ update (λ q. kind_at (cells q)) p (kind_at c) q
  kind_at-update cells p c q = by_test (p == q)
    where
      by_test :
          (b : Bool)
          → kind_at (if b then c else cells q) ≡ (if b then kind_at c else kind_at (cells q))
      by_test true = refl
      by_test false = refl

  -- From here on `w` is the memory at the start of a call, and `u` is what it has become, with the
  -- same objects and variables for the client.
  module _ (w u : Memory) (valid : IsValid w)
      (same : (q : Ptr) → kind_at (u.cells q) ≡ kind_at (w.cells q)) (next : u.next ≡ w.next)
      (slots : u.slots ≡ w.slots) where
    unchanged : (view u).holds ≡ (view w).holds
    unchanged = holdings_eq same slots

    pub alloc-Makes :
        (b : Block sdk)
        → Runs pointer
            (λ r s'. Makes (view w) r s' (kind_of b) × (s'.error ≡ u.thread.last_error))
            (alloc b u)
    unfolding alloc
    alloc-Makes b =
        let v : Memory = record u { next = suc u.next; cells = update u.cells u.next (some b) } in
        let fresh : kind_at (w.cells u.next) ≡ none =
          rw next (rw (valid.fresh w.next (omega arith))) in
        let not_null : u.next ≢ 0 = omega (arith, valid.positive, next) in
        record {
          result = u.next;
          after = v;
          ran = refl;
          meets = (
            (
              u.next,
              refl,
              not_null,
              fresh,
              holdings_eq (λ q. rw (kind_at-update u.cells u.next (some b) q) (rw (same q))) slots,
            ),
            refl,
          );
        }

    pub to_c_string-Says :
        (s : Bytes)
        → Runs pointer
            (λ r s'. Says (view w) r s' s × (s'.error ≡ u.thread.last_error))
            (to_c_string sdk s u)
    unfolding to_c_string
    to_c_string-Says s = by_zero (has_zero s)
      where
        by_zero :
            (b : Bool)
            → Runs pointer
                (λ r s'. SaysBy (view w) r s' b s × (s'.error ≡ u.thread.last_error))
                ((if b then pure null else alloc (c_string s)) u)
        by_zero true = record {
          result = null;
          after = u;
          ran = refl;
          meets = ((refl, unchanged), refl);
        }
        by_zero false = alloc-Makes (c_string s)

  -- A failure, whatever the client then holds.
  module _ (u : Memory) (h : Holdings) (held : (view u).holds ≡ h) (e : Error) where
    pub fail_with-code :
        Runs status
          (λ r s'. (r ≡ status minus_one) × (s'.holds ≡ h) × (s'.error ≡ some e))
          (fail_with e minus_one u)
    unfolding fail_with
    fail_with-code = record {
      result = minus_one;
      after = record u { thread = record u.thread { last_error = some e } };
      ran = refl;
      meets = (refl, held, refl);
    }

    pub fail_with-null :
        Runs pointer
          (λ r s'. (r ≡ pointer null) × (s'.holds ≡ h) × (s'.error ≡ some e))
          (fail_with e null u)
    unfolding fail_with
    fail_with-null = record {
      result = null;
      after = record u { thread = record u.thread { last_error = some e } };
      ran = refl;
      meets = (refl, held, refl);
    }

  module _ (w : Memory) (p : Ptr) where
    -- What the client holds when an object was taken back, and when another of its kind stands
    -- there.
    pub without-holds : (view (without w p)).holds ≡ with_kind (view w).holds p none
    without-holds = holdings_eq (kind_at-update w.cells p none) refl

    pub restored :
        (b : Block sdk)
        → kind_at (w.cells p) ≡ some (kind_of b)
        → (q : Ptr) → kind_at (update (without w p).cells p (some b) q) ≡ kind_at (w.cells q)
    restored b h q = ground (arith, h)

  module _ (w : Memory) (valid : IsValid w) where
    -- An object that the SDK made, or its error.
    pub made-Makes :
        {A : Type 0} (mk : A → Block sdk) (k : Kind) (t : Thread sdk.Env) (r : Result A C2paError)
        → ((a : A) → kind_of (mk a) ≡ k)
        → Runs pointer
            (λ r s'. Makes (view w) r s' k ⊎ WithError (FailsNull (view w) r s'))
            ((elim r as (λ _. Api sdk Ptr) [ ok a ↦ alloc (mk a) | err e ↦ sdk_error sdk e null ])
              (record w { thread = t }))
    unfolding sdk_error
    made-Makes mk k t (ok a) kind = rw (← kind a) (
        Runs-weaken (λ r s' h. inl h.0)
          (alloc-Makes w (record w { thread = t }) valid (λ q. refl) refl refl (mk a)))
    made-Makes mk k t (err e) kind =
        Runs-weaken (λ r s' h. inr (from_c2pa_error e, h))
          (fail_with-null (record w { thread = t }) (view w).holds refl (from_c2pa_error e))

  -- The functions that free: null is left alone, and an object is dropped.
  module _ (w : Memory) (valid : IsValid w) (p : Ptr) where
    null-Frees : p ≡ 0 → (view w).holds ≡ with_kind (view w).holds p none
    null-Frees e = holdings_eq (λ q. ground (arith, valid.null_free, e)) refl

    not_null : {b : Block sdk} → w.cells p ≡ some b → p ≢ 0
    not_null here = let (above, _) = live_bounds valid p here in omega arith

    pub free-Frees :
        {A : Type 0} (look : Block sdk → Option A) (a : A) {b : Block sdk}
        → w.cells p ≡ some b
        → object_at look w p ≡ some a
        → Runs
            (λ _. done)
            (λ r s'. Frees (view w) r s' p)
            ((if p == 0 then pure tt else (do object ← from_raw look p; pure tt)) w)
    free-Frees look a here seen = rw (==_ne p 0 (not_null here)) (
        rw (from_raw-live look w p a seen, ◌>>=◌)
          (record {
            result = tt;
            after = without w p;
            ran = refl;
            meets = (refl, without-holds w p, refl);
          }))

    pub free-Frees_null :
        (m : Api sdk (Unit {0}))
        → p ≡ 0
        → Runs (λ _. done) (λ r s'. Frees (view w) r s' p) ((if p == 0 then pure tt else m) w)
    free-Frees_null m e =
        rw (==_eq p 0 e)
          (record { result = tt; after = w; ran = refl; meets = (refl, null-Frees e, refl) })
