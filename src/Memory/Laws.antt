-- ===== src/Memory/Laws.antt =====
-- Validity of the memory shared with C (src/c_api.rs), and its operations.
use c2pa_c.Common.{◌≤◌, ◌<◌, suc, Option, none, some, ◌≡◌, refl, arith, M, ==_ne}
use c2pa_c.Error.Last.{Thread}
use c2pa_c.Stream.{Ptr}
use c2pa_c.Memory.{World, update, seen, step_thread, in_thread, from_raw, borrow, object_at}

-- Null is no object, and objects stand below the next address only.
pub record ValidCells {B : Type 0} (next : Ptr) (cells : Ptr → Option B) : Type 0 where
  pub positive : 0 < next
  pub null_free : cells 0 ≡ none
  pub fresh : (p : Ptr) → next ≤ p → cells p ≡ none

abbrev pub IsValid : {E B : Type 0} → World E B → Type 0
IsValid w = ValidCells w.next w.cells

-- Every object of the memory has a property.
abbrev pub Every : {E B : Type 0} → (B → Type 0) → World E B → Type 0
Every {B} G w = (p : Ptr) (b : B) → w.cells p ≡ some b → G b

module _ {B : Type 0} {next : Ptr} {cells : Ptr → Option B} (v : ValidCells next cells) where
  -- A live object stands at an address between null and the next one.
  pub live_bounds : (p : Ptr) {b : B} → cells p ≡ some b → (0 < p) × (p < next)
  live_bounds p e = ground (arith, v.null_free, v.fresh p)

  pub ValidCells-update :
      (p : Ptr) (c : Option B) → 0 < p → p < next → ValidCells next (update cells p c)
  ValidCells-update p c pos lt = record {
    positive = v.positive;
    null_free = rw (==_ne p 0 (omega arith)) v.null_free;
    fresh = λ q h. rw (==_ne p q (omega arith)) (v.fresh q h);
  }

  pub ValidCells-drop : (p : Ptr) → ValidCells next (update cells p none)
  ValidCells-drop p = record {
    positive = v.positive;
    null_free = ground (arith, v.null_free);
    fresh = λ q h. ground (arith, v.fresh q h);
  }

  pub ValidCells-alloc : (b : B) → ValidCells (suc next) (update cells next (some b))
  ValidCells-alloc b = record {
    positive = omega arith;
    null_free = rw (==_ne next 0 (omega (arith, v.positive))) v.null_free;
    fresh = λ q h. rw (==_ne next q (omega arith)) (v.fresh q (omega arith));
  }

-- A live object is in a cell.
pub seen-live :
    {B A : Type 0} (view : B → Option A) (c : Option B) {a : A}
    → seen view c ≡ some a
    → (b : B) × (c ≡ some b)
seen-live view none e = cc
seen-live view (some b) e = (b, refl)

module _ {E B A : Type 0} (view : B → Option A) (w : World E B) where
  -- A live object, taken back.
  pub from_raw-live :
      (p : Ptr) (a : A)
      → object_at view w p ≡ some a
      → from_raw view p w ≡ some (a, record w { cells = update w.cells p none })
  unfolding from_raw
  from_raw-live p a e = rw (e, from_raw)

  -- Anything else is a fault.
  pub from_raw-dead : (p : Ptr) → object_at view w p ≡ none → from_raw view p w ≡ none
  unfolding from_raw
  from_raw-dead p e = rw (e, from_raw)

  pub borrow-dead : (p : Ptr) → object_at view w p ≡ none → borrow view p w ≡ none
  unfolding borrow
  borrow-dead p e = rw (e, borrow)

  pub borrow-live : (p : Ptr) (a : A) → object_at view w p ≡ some a → borrow view p w ≡ some (a, w)
  unfolding borrow
  borrow-live p a e = rw (e, borrow)

pub in_thread-returns :
    {E B A : Type 0} (m : M (Thread E) A) (w : World E B) (a : A) (t : Thread E)
    → m w.thread ≡ some (a, t)
    → in_thread m w ≡ some (a, record w { thread = t })
unfolding in_thread
in_thread-returns m w a t e = rw (e, in_thread, step_thread)
