-- ===== src/CApi/Ownership/Freeing.antt =====
-- The functions that free, on a live object and on null (src/c_api.rs and src/c_stream.rs).
use c2pa_c.Common.{
  Bytes, length, Option, none, some, ◌≡◌, ◌≢◌, refl, ◌>>=◌, ==_refl, ==_ne, ◌==◌, if◌then◌else◌,
  pure,
}
use c2pa_c.Stream.{Ptr}
use c2pa_c.Memory.{World, from_raw, object_at}
use c2pa_c.Memory.Laws.{from_raw-live, from_raw-dead}
use c2pa_c.Sdk.{
  Sdk, Block, builder, reader, signer, stream, c_string, boxed_slice, as_builder, as_reader,
  as_signer, as_stream, as_c_string, as_boxed_slice,
}
use c2pa_c.CApi.{Api}
use c2pa_c.CApi.Files.{c2pa_string_free}
use c2pa_c.CApi.Reading.{c2pa_reader_free}
use c2pa_c.CApi.Building.{c2pa_builder_free}
use c2pa_c.CApi.Signing.{free_one_byte, c2pa_manifest_bytes_free}
use c2pa_c.CApi.Signers.{c2pa_signer_free}
use c2pa_c.CApi.Streams.{c2pa_release_stream}
use c2pa_c.CApi.Ownership.{without}

module _ (sdk : Sdk) where
  -- The function that the documentation names for an object.
  abbrev pub free_of : Block sdk → Ptr → Api sdk (Unit {0})
  free_of (builder _) = c2pa_builder_free sdk
  free_of (reader _) = c2pa_reader_free sdk
  free_of (signer _) = c2pa_signer_free sdk
  free_of (stream _) = c2pa_release_stream sdk
  free_of (c_string _) = c2pa_string_free sdk
  free_of (boxed_slice _) = c2pa_manifest_bytes_free sdk

  -- A boxed slice is freed rightly only if it has one byte.
  abbrev pub IsFreeable : Block sdk → Type 0
  IsFreeable (boxed_slice bytes) = length bytes ≡ 1
  IsFreeable _ = Unit

  module _ {A : Type 0} (view : Block sdk → Option A) (w : World sdk.Env (Block sdk)) (p : Ptr)
      (ne : p ≢ 0) where
    gone : object_at view (without w p) p ≡ none
    gone = rw (==_refl p)

    -- What a function that frees does at a live object, and after that.
    free-live :
        (a : A)
        → object_at view w p ≡ some a
        → let free : Api sdk (Unit {0}) =
            (if p == 0 then pure tt else (do object ← from_raw view p; pure tt)) in
          (free w ≡ some (tt, without w p)) × (free (without w p) ≡ none)
    free-live a e = (
      rw (==_ne p 0 ne) (rw (from_raw-live view w p a e, ◌>>=◌)),
      rw (==_ne p 0 ne) (rw (from_raw-dead view (without w p) p gone, ◌>>=◌)),
    )

  module _ (w : World sdk.Env (Block sdk)) (p : Ptr) (ne : p ≢ 0) where
    free_slice :
        (bytes : Bytes)
        → w.cells p ≡ some (boxed_slice bytes)
        → length bytes ≡ 1
        → (free_one_byte sdk p w ≡ some (tt, without w p))
          × (free_one_byte sdk p (without w p) ≡ none)
    unfolding free_one_byte as_boxed_slice
    free_slice bytes h one = (
      rw (==_ne p 0 ne)
          (rw (from_raw-live (as_boxed_slice sdk) w p bytes (rw h refl), ◌>>=◌) (rw one)),
      rw (==_ne p 0 ne) (
          rw (
            from_raw-dead (as_boxed_slice sdk) (without w p) p (gone (as_boxed_slice sdk) w p ne),
            ◌>>=◌,
          )),
    )

    -- The function that the documentation names for a live object frees it, at an address that is
    -- not null, and nothing else changes; a second call with the same pointer is undefined
    -- behaviour. A boxed slice must have one byte.
    pub free-once :
        (b : Block sdk)
        → w.cells p ≡ some b
        → IsFreeable b
        → (free_of b p w ≡ some (tt, without w p)) × (free_of b p (without w p) ≡ none)
    unfolding c2pa_builder_free c2pa_reader_free c2pa_signer_free c2pa_release_stream
        c2pa_string_free c2pa_manifest_bytes_free as_builder as_reader as_signer as_stream
        as_c_string
    free-once (builder b) h f = free-live (as_builder sdk) w p ne b (rw h refl)
    free-once (reader r) h f = free-live (as_reader sdk) w p ne r (rw h refl)
    free-once (signer k) h f = free-live (as_signer sdk) w p ne k (rw h refl)
    free-once (stream s) h f = free-live (as_stream sdk) w p ne s (rw h refl)
    free-once (c_string s) h f = free-live (as_c_string sdk) w p ne s (rw h refl)
    free-once (boxed_slice bytes) h f = free_slice bytes h f

    -- `c2pa_manifest_bytes_free` on live bytes of any length but one, at an address that is not
    -- null, is undefined behaviour.
    manifest_bytes_free-faults :
        (bytes : Bytes)
        → w.cells p ≡ some (boxed_slice bytes)
        → length bytes ≢ 1
        → c2pa_manifest_bytes_free sdk p w ≡ none
    unfolding c2pa_manifest_bytes_free free_one_byte as_boxed_slice
    manifest_bytes_free-faults bytes h long = rw (==_ne p 0 ne) (
        rw (from_raw-live (as_boxed_slice sdk) w p bytes (rw h refl), ◌>>=◌)
          (rw (==_ne (length bytes) 1 long)))

  -- Each of the functions that free leaves null alone: the memory stays as it is.
  pub free-null : (b : Block sdk) (w : World sdk.Env (Block sdk)) → free_of b 0 w ≡ some (tt, w)
  unfolding c2pa_builder_free c2pa_reader_free c2pa_signer_free c2pa_release_stream c2pa_string_free
      c2pa_manifest_bytes_free free_one_byte
  free-null (builder _) w = refl
  free-null (reader _) w = refl
  free-null (signer _) w = refl
  free-null (stream _) w = refl
  free-null (c_string _) w = refl
  free-null (boxed_slice _) w = refl
