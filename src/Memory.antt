-- ===== src/Memory.antt =====
-- The memory that the C interface (src/c_api.rs) shares with its clients: objects that Rust gave
-- away by `Box::into_raw` or `CString::into_raw`, and the pointer variables of C that functions
-- write to. An address is used for one object only.
pub mod Laws
pub mod Frame
use c2pa_c.Common.{
  ℕ, suc, Option, none, some, M, ◌>>=◌, ◌>>◌, pure, or_fault, gets, modify, if◌then◌else◌, ◌==◌,
}
use c2pa_c.Error.{Error}
use c2pa_c.Error.Last.{Thread, set_last}
use c2pa_c.Stream.{Ptr}

-- `cells` holds the live objects, all below `next`; `slots` are the variables of C.
pub record World (E B : Type 0) : Type 0 where
  pub thread : Thread E
  pub next : Ptr
  pub cells : Ptr → Option B
  pub slots : Ptr → Ptr

abbrev pub update {ℓ} : {A : Type ℓ} → (Ptr → A) → Ptr → A → Ptr → A
update f p v q = if p == q then v else f q

-- Runs a call that does not touch the shared memory.
abbrev pub step_thread :
    {E B A : Type 0} → World E B → Option (A × Thread E) → Option (A × World E B)
step_thread w none = none
step_thread w (some (a, t)) = some (a, record w { thread = t })

-- What a view shows of a cell.
abbrev pub seen : {B A : Type 0} → (B → Option A) → Option B → Option A
seen view none = none
seen view (some b) = view b

module _ {E B A : Type 0} where
  unfoldable pub in_thread : M (Thread E) A → M (World E B) A
  in_thread m w = step_thread w (m w.thread)

  -- The object at an address, if there is one and it is of the kind that is looked for.
  abbrev pub object_at : (B → Option A) → World E B → Ptr → Option A
  object_at view w p = seen view (w.cells p)

  -- `Box::from_raw`: Rust takes the object back. It is dropped unless `into_raw` gives it away
  -- again. At any other address this is undefined behaviour.
  unfoldable pub from_raw : (B → Option A) → Ptr → M (World E B) A
  from_raw view p w = elim (object_at view w p) [
    | none ↦ none
    | some object ↦ some (object, record w { cells = update w.cells p none })
  ]

  -- `&mut *p`: the object stays where it is.
  unfoldable pub borrow : (B → Option A) → Ptr → M (World E B) A
  borrow view p w = elim (object_at view w p) [ none ↦ none | some object ↦ some (object, w) ]

module _ {E B : Type 0} where
  -- `Box::into_raw` of the box that stood at `p` before.
  unfoldable pub into_raw : Ptr → B → M (World E B) (Unit {0})
  into_raw p b = modify λ w. record w { cells = update w.cells p (some b) }

  -- `Box::into_raw(Box::new(…))`
  unfoldable pub alloc : B → M (World E B) Ptr
  alloc b w = some (w.next, record w { next = suc w.next; cells = update w.cells w.next (some b) })

  -- `*slot = p`
  unfoldable pub write_slot : Ptr → Ptr → M (World E B) (Unit {0})
  write_slot slot p = modify λ w. record w { slots = update w.slots slot p }

module _ {E B A : Type 0} where
  -- Sets the last error and returns a value.
  unfoldable pub fail_with : Error → A → M (World E B) A
  unfolding set_last
  fail_with e a w = step_thread w ((do set_last e; pure a) w.thread)
