-- ===== src/Memory/Frame.antt =====
-- A logic of actions on the memory shared with C (src/c_api.rs): what they may touch.
pub mod Changes
use c2pa_c.Common.{
  ℕ, ◌≤◌, ◌<◌, Bool, true, false, ◌||◌, List, [], ◌∷◌, ◌++◌, Option, none, some, M, ◌>>=◌, pure,
  fault, ◌≡◌, ◌∙◌, refl, arith, ◌==◌, if◌then◌else◌, Option-cases, inl, inr, ap,
}
use mathlib.Core.Option.{some-injective}
use mathlib.Core.Path.{subst}
use c2pa_c.Error.{Error}
use c2pa_c.Error.Last.{Thread}
use c2pa_c.Stream.{Ptr}
use c2pa_c.Memory.{
  World, update, object_at, step_thread, in_thread, from_raw, borrow, fail_with, into_raw, alloc,
  write_slot,
}
use c2pa_c.Memory.Laws.{
  IsValid, Every, live_bounds, ValidCells-update, ValidCells-drop, ValidCells-alloc, seen-live,
}
pub use c2pa_c.Memory.Frame.Changes.{has, Fits, Steps, Keeps, Seen, returned, Every-some}
use c2pa_c.Memory.Frame.Changes.{Every-update, ends, Steps-refl, Steps-trans}

module _ {E B A : Type 0} {G : B → Type 0} {n : ℕ} {ts : List Ptr} where
  pub Keeps-pure : (a : A) → Keeps {E = E} {B = B} G n ts (pure a)
  Keeps-pure a w v h b w' e = ends (Steps-refl ts w v) e

  pub Keeps-fault : Keeps {E = E} {B = B} {A = A} G n ts fault
  Keeps-fault w v h b w' e = cc

  pub Keeps-if :
      (c : Bool) {m k : M (World E B) A}
      → Keeps G n ts m
      → Keeps G n ts k
      → Keeps G n ts (if c then m else k)
  Keeps-if true hm hk = hm
  Keeps-if false hm hk = hk

  pub Keeps-in_thread : (m : M (Thread E) A) → Keeps {B = B} G n ts (in_thread m)
  unfolding in_thread
  Keeps-in_thread m w v h a w' e = elim (Option-cases (m w.thread)) [
    | inl stuck ↦ cc (rw (stuck, step_thread) at e)
    | inr ((b, t), run) ↦
        ends
          (record {
            grows = omega arith;
            fits = record { valid = v.valid; every = v.every };
            frame = λ p h o. refl;
          })
          (rw (run, step_thread) at e)
  ]

  pub Keeps-fail_with : (err : Error) (a : A) → Keeps {E = E} {B = B} G n ts (fail_with err a)
  unfolding fail_with
  Keeps-fail_with err a w v h b w' e =
      ends
        (record {
          grows = omega arith;
          fits = record { valid = v.valid; every = v.every };
          frame = λ p h o. refl;
        })
        e

  pub Keeps-borrow : (view : B → Option A) (p : Ptr) → Keeps {E = E} G n ts (borrow view p)
  unfolding borrow
  Keeps-borrow view p w v h a w' e = elim (Option-cases (object_at view w p)) [
    | inl gone ↦ cc (rw (gone, borrow) at e)
    | inr (b, live) ↦ ends (Steps-refl ts w v) (rw (live, borrow) at e)
  ]

module _ {E B : Type 0} {G : B → Type 0} {n : ℕ} {ts : List Ptr} where
  pub Keeps-bind :
      {A C : Type 0} {m : M (World E B) A} {f : A → M (World E B) C}
      → Keeps G n ts m
      → ((a : A) → Keeps G n ts (f a))
      → Keeps G n ts (m >>= f)
  Keeps-bind {m} {f} hm hf w v h c w' e = elim (Option-cases (m w)) [
    | inl stuck ↦ cc (rw (stuck, ◌>>=◌) at e)
    | inr ((a, u), run) ↦
        let s = hm w v h a u run in
        Steps-trans s (hf a u s.fits (omega (arith, s.grows)) c w' (rw (run, ◌>>=◌) at e))
  ]

  -- After an object has been taken back its address is known to be in use.
  pub Keeps-from_raw :
      {A C : Type 0} (view : B → Option A) (p : Ptr) {f : A → M (World E B) C}
      → has p ts ≡ true
      → ((a : A) (k : ℕ) → n ≤ k → 0 < p → p < k → Seen G view a → Keeps G k ts (f a))
      → Keeps G n ts (from_raw view p >>= f)
  unfolding from_raw
  Keeps-from_raw view p {f} listed hf w v h c w' e = elim (Option-cases (object_at view w p)) [
    | inl gone ↦ cc (rw (gone, ◌>>=◌, from_raw) at e)
    | inr (a, live) ↦
        let (b, here) = seen-live view (w.cells p) live in
        let (pos, lt) = live_bounds v.valid p here in
        let u : World E B = record w { cells = update w.cells p none } in
        let taken : Steps G ts w u = record {
          grows = omega arith;
          fits = record {
            valid = ValidCells-drop v.valid p;
            every = Every-update w.cells p none v.every (λ c e. cc);
          };
          frame = λ q lt o. ground (arith);
        } in
        Steps-trans taken (
          hf a w.next h pos lt (b, rw here at live, v.every p b here) u taken.fits (omega arith) c
            w' (rw (live, ◌>>=◌, from_raw) at e))
  ]

  pub Keeps-into_raw :
      (p : Ptr) (b : B)
      → G b
      → has p ts ≡ true
      → 0 < p
      → p < n
      → Keeps {E = E} G n ts (into_raw p b)
  unfolding into_raw
  Keeps-into_raw p b g listed pos lt w v h a w' e =
      ends
        (record {
          grows = omega arith;
          fits = record {
            valid = ValidCells-update v.valid p (some b) pos (omega arith);
            every = Every-update w.cells p (some b) v.every (λ c e. Every-some G b c g e);
          };
          frame = λ q lt o. ground arith;
        })
        e

  pub Keeps-alloc : (b : B) → G b → Keeps {E = E} G n ts (alloc b)
  unfolding alloc
  Keeps-alloc b g w v h a w' e =
      ends
        (record {
          grows = omega arith;
          fits = record {
            valid = ValidCells-alloc v.valid b;
            every = Every-update w.cells w.next (some b) v.every (λ c e. Every-some G b c g e);
          };
          frame = λ q lt o. ground arith;
        })
        e

  pub Keeps-write_slot : (slot p : Ptr) → Keeps {E = E} {B = B} G n ts (write_slot slot p)
  unfolding write_slot
  Keeps-write_slot slot p w v h a w' e =
      ends
        (record {
          grows = omega arith;
          fits = record { valid = v.valid; every = v.every };
          frame = λ q lt o. refl;
        })
        e

pub has-append : (p : Ptr) (xs ys : List Ptr) → has p (xs ++ ys) ≡ (has p xs || has p ys)
has-append p [] ys = refl
has-append p (x ∷ xs) ys = ground (arith, has-append p xs ys)

-- What touches fewer objects touches no more.
pub Keeps-weaken :
    {E B A : Type 0} {G : B → Type 0} {n : ℕ} {ts us : List Ptr} {m : M (World E B) A}
    → ((p : Ptr) → has p us ≡ false → has p ts ≡ false)
    → Keeps G n ts m
    → Keeps G n us m
Keeps-weaken fewer h w v b a w' e =
    let s = h w v b a w' e in
    record { grows = s.grows; fits = s.fits; frame = λ p lt o. s.frame p lt (fewer p o) }
