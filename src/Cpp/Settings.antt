-- ===== src/Cpp/Settings.antt =====
-- The settings through the C++ wrapper (src/c2pa.cpp, lines 95 to 100, and src/c_api.rs, lines
-- 200 to 216).
use c2pa_c.Common.{
  Bytes, some, Result, ok, err, ℤ, pos, ◌>>=◌, pure, ◌≡◌, ◌∙◌, refl, sym, from_utf8_lossy,
  if◌then◌else◌,
}
use mathlib.Core.Option.{some-injective}
use mathlib.Core.Path.{subst}
use c2pa_c.Error.Convert.{C2paError, from_c2pa_error}
use c2pa_c.Error.Last.{Thread, set_last}
use c2pa_c.Memory.{fail_with}
use c2pa_c.Memory.Laws.{in_thread-returns}
use c2pa_c.Sdk.{Sdk}
use c2pa_c.CApi.{minus_one}
use c2pa_c.CApi.Files.{c2pa_load_settings}
use c2pa_c.CApi.Session.{Call, status, perform}
use c2pa_c.CApi.Protocol.{Client, Ready, view}
use c2pa_c.CApi.Protocol.Rules.{Memory}
use c2pa_c.Cpp.{before_zero, c_str, throw, is_zero, load_settings}
use c2pa_c.Cpp.Ends.{
  Hosted, what_of, IsCalm, Ends, returns, faults, Ends-pure, Ends-bind, Ends-weaken, Ends-call,
}
use c2pa_c.Cpp.Texts.{throw-Throws}

-- What the wrapper makes of the SDK's result.
abbrev pub loaded : (null_text : Bytes) → Result (Unit {0}) C2paError → Result (Unit {0}) Bytes
loaded null_text (ok _) = ok tt
loaded null_text (err e) = err (what_of null_text (some (from_c2pa_error e)))

module _ (sdk : Sdk) where
  -- The code, and the memory after the call.
  abbrev code : Result (Unit {0}) C2paError → ℤ
  code (ok _) = pos 0
  code (err e) = minus_one

  abbrev after : Memory sdk → Thread sdk.Env → Result (Unit {0}) C2paError → Memory sdk
  after w t (ok _) = record w { thread = t }
  after w t (err e) = record w { thread = record t { last_error = some (from_c2pa_error e) } }

  abbrev text : Bytes → Bytes
  text s = from_utf8_lossy (before_zero s)

  module _ (good : sdk.Signer → Type 0) (host : Hosted sdk good) (w : Memory sdk)
      (v : IsCalm sdk good w) (format settings : Bytes) (t : Thread sdk.Env) where
    settings_call :
        (result : Result (Unit {0}) C2paError)
        → sdk.load_settings_from_str (text format) (text settings) w.thread ≡ some (result, t)
        → c2pa_load_settings sdk (c_str format) (c_str settings) w
          ≡ some (code result, after w t result)
    unfolding c2pa_load_settings fail_with set_last
    settings_call (ok x) run = rw (in_thread-returns _ w (ok x) t run, ◌>>=◌) refl
    settings_call (err e) run = rw (in_thread-returns _ w (err e) t run, ◌>>=◌) refl

    -- What the client sees after the call.
    abbrev Seen : Result (Unit {0}) C2paError → ℤ → Client → Type 0
    Seen (ok _) a c = (a ≡ pos 0) × (c.holds ≡ (view w).holds)
    Seen (err e) a c =
        (a ≡ minus_one) × (c.holds ≡ (view w).holds) × (c.error ≡ some (from_c2pa_error e))

    settings-Seen :
        (result : Result (Unit {0}) C2paError) → Seen result (code result) (view (after w t result))
    settings-Seen (ok x) = (refl, refl)
    settings-Seen (err e) = (refl, refl, refl)

    after_call :
        (result : Result (Unit {0}) C2paError) (a : ℤ) (u : Memory sdk)
        → IsCalm sdk good u
        → Seen result a (view u)
        → Ends sdk good
            (λ r c. (r ≡ loaded host.null_text result) × (c.holds ≡ (view w).holds))
            (if is_zero a then pure (ok tt) else throw sdk)
            u
    after_call (ok x) a u v' (same, kept) = rw same (Ends-pure sdk good (ok tt) u v' (refl, kept))
    after_call (err e) a u v' (same, kept, error) = rw same (
        Ends-weaken sdk good (λ r c (said, held, _). (said, held))
          (throw-Throws sdk good host u v' (view w).holds (from_c2pa_error e) kept error))

    -- With an SDK that answers, a standard library that has a text for null, and a memory that is
    -- valid: the SDK is given the format of C++ as the settings, and the settings as the format.
    -- If it takes them, the wrapper returns; if it refuses them, the wrapper throws the text of
    -- the error, or what the standard library makes of null where that text has a zero byte; the
    -- client holds what it held.
    pub load_settings-swaps :
        (result : Result (Unit {0}) C2paError)
        → sdk.load_settings_from_str (text format) (text settings) w.thread ≡ some (result, t)
        → Ends sdk good
            (λ r c. (r ≡ loaded host.null_text result) × (c.holds ≡ (view w).holds))
            (load_settings sdk format settings)
            w
    unfolding load_settings perform Ready
    load_settings-swaps result run =
        Ends-bind sdk good {P = Seen result}
          (c2pa_load_settings sdk (c_str format) (c_str settings)) _ w
          (elim (Ends-call sdk good host {bad = ⊥}
            (Call.load_settings (c_str format) (c_str settings)) status
            (c2pa_load_settings sdk (c_str format) (c_str settings)) w refl v tt tt) [
              | faults why stuck ↦ elim why [ ]
              | returns a w' ran v' allowed ↦
                  let same = some-injective _ _ (sym ran ∙ settings_call result run) in
                  returns a w' ran v'
                    (subst (λ x. Seen result x.0 (view x.1)) (sym same) (settings-Seen result))
            ])
          (after_call result)
