-- ===== src/CApi/Ownership.antt =====
-- Who owns an object after a call (src/c_api.rs): rules for the functions that take objects back.
pub mod Filling
pub mod Freeing
pub mod Signing
pub mod Hashed
pub mod Reading
pub mod Making
pub mod Embedding
use c2pa_c.Common.{ℕ, Option, none, some, ◌≡◌, ◌≢◌, refl, arith, ==_ne, ◌==◌, if◌then◌else◌, ap}
use c2pa_c.Stream.{Ptr, CStream}
use c2pa_c.Memory.{World, update, from_raw, borrow}
use c2pa_c.Memory.Laws.{from_raw-live, borrow-live}
use c2pa_c.Sdk.{
  Sdk, Block, builder, reader, signer, stream, as_builder, as_reader, as_signer, as_stream,
}

-- The memory without the object at an address.
abbrev pub without : {E B : Type 0} → World E B → Ptr → World E B
without w p = record w { cells = update w.cells p none }

module _ (sdk : Sdk) (w : World sdk.Env (Block sdk)) (p : Ptr) where
  pub take_builder :
      (b : sdk.Builder)
      → w.cells p ≡ some (builder b)
      → from_raw (as_builder sdk) p w ≡ some (b, without w p)
  unfolding as_builder
  take_builder b h = from_raw-live (as_builder sdk) w p b (rw h refl)

  pub take_reader :
      (r : sdk.Reader)
      → w.cells p ≡ some (reader r)
      → from_raw (as_reader sdk) p w ≡ some (r, without w p)
  unfolding as_reader
  take_reader r h = from_raw-live (as_reader sdk) w p r (rw h refl)

  pub take_signer :
      (k : sdk.Signer)
      → w.cells p ≡ some (signer k)
      → from_raw (as_signer sdk) p w ≡ some (k, without w p)
  unfolding as_signer
  take_signer k h = from_raw-live (as_signer sdk) w p k (rw h refl)

  pub borrow_stream :
      (s : CStream sdk.Env) → w.cells p ≡ some (stream s) → borrow (as_stream sdk) p w ≡ some (s, w)
  unfolding as_stream
  borrow_stream s h = borrow-live (as_stream sdk) w p s (rw h refl)

module _ {E B : Type 0} (w : World E B) (p q : Ptr) where
  -- Two different objects do not stand at one address.
  pub apart : {a b : B} → w.cells p ≡ some a → w.cells q ≡ some b → a ≢ b → p ≢ q
  apart h k ne e = absurd (ne (cc (ap w.cells e)))

  pub cells-without : {b : B} → p ≢ q → w.cells q ≡ some b → (without w p).cells q ≡ some b
  cells-without ne h = rw (==_ne p q ne) h
