-- ===== src/CApi/Threads.antt =====
-- A process with several threads, which share the memory and have a last error each
-- (`thread_local!` of src/error.rs). The threads take turns; a turn is one call of the interface
-- (src/c_api.rs).
pub mod Isolation
use c2pa_c.Common.{ℕ, List, [], ◌∷◌, ◌++◌, Option, none, some, M, ◌>>=◌, pure}
use c2pa_c.Error.{Error}
use c2pa_c.Error.Last.{Thread}
use c2pa_c.Stream.{Ptr}
use c2pa_c.Memory.{World, update}
use c2pa_c.Sdk.{Sdk, Block}
use c2pa_c.CApi.{Api}
use c2pa_c.CApi.Session.{Call, Reply, perform, handles}

-- What each thread has of its own, by its number, and what all share.
pub record Process (E B : Type 0) : Type 0 where
  pub errors : ℕ → Option Error
  pub errnos : ℕ → ℕ
  pub outside : E
  pub next : Ptr
  pub cells : Ptr → Option B
  pub slots : Ptr → Ptr

module _ {E B : Type 0} where
  -- What a thread sees, and what it leaves.
  abbrev pub enter : ℕ → Process E B → World E B
  enter i p = record {
    thread = record { last_error = p.errors i; errno = p.errnos i; outside = p.outside };
    next = p.next;
    cells = p.cells;
    slots = p.slots;
  }

  abbrev pub leave : ℕ → Process E B → World E B → Process E B
  leave i p w = record {
    errors = update p.errors i w.thread.last_error;
    errnos = update p.errnos i w.thread.errno;
    outside = w.thread.outside;
    next = w.next;
    cells = w.cells;
    slots = w.slots;
  }

  -- A turn of a thread.
  unfoldable pub turn : {A : Type 0} → ℕ → M (World E B) A → M (Process E B) A
  turn i m p = elim (m (enter i p)) [ none ↦ none | some (a, w) ↦ some (a, leave i p w) ]

module _ (sdk : Sdk) where
  -- Any order of the turns.
  unfoldable pub interleave : List (ℕ × Call sdk) → M (Process sdk.Env (Block sdk)) (List Reply)
  unfolding turn perform
  interleave [] = pure []
  interleave ((i, c) ∷ turns) = do
    reply ← turn i (perform sdk c)
    rest ← interleave turns
    pure (reply ∷ rest)

-- The threads that take part, and the handles that they give to the calls.
abbrev pub threads_of : {sdk : Sdk} → List (ℕ × Call sdk) → List ℕ
threads_of [] = []
threads_of ((i, c) ∷ turns) = i ∷ threads_of turns

abbrev pub handles_of : {sdk : Sdk} → List (ℕ × Call sdk) → List Ptr
handles_of [] = []
handles_of ((i, c) ∷ turns) = handles c ++ handles_of turns
