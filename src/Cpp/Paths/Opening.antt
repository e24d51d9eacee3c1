-- ===== src/Cpp/Paths/Opening.antt =====
-- Local file streams of the C++ wrapper (src/c2pa.cpp), over the contract of the C interface.
use c2pa_c.Common.{Bytes, Option, none, some, Result, M, ◌≡◌, ◌≢◌, refl, sym}
use mathlib.Core.Path.{subst}
use c2pa_c.Error.Last.{Thread}
use c2pa_c.Memory.{in_thread}
use c2pa_c.Memory.Laws.{in_thread-returns}
use c2pa_c.Sdk.{Sdk}
use c2pa_c.CApi.Protocol.{Holdings, view}
use c2pa_c.CApi.Protocol.Rules.{Memory}
use c2pa_c.Cpp.{Cpp}
use c2pa_c.Cpp.Ends.{Hosted, IsCalm, Ends, returns, Ends-pure, Ends-bind}
use c2pa_c.Cpp.Iostream.{Iostream}
use c2pa_c.Cpp.Iostream.Answers.{IsReturning}
use c2pa_c.Cpp.Paths.{Filesystem, use_file, with_file}

-- An action outside the library returns, and leaves the library's last error alone.
abbrev pub Quietly : {E A : Type 0} → M (Thread E) A → Type 0
Quietly {E} {A} m =
    (t : Thread E)
    → (a : A) × (t' : Thread E) × (m t ≡ some (a, t')) × (t'.last_error ≡ t.last_error)

-- Files that can be opened give streams with addresses, whose operations return; the functions on
-- files return.
pub record IsReady {E : Type 0} (files : Filesystem E) : Type 0 where
  pub opens_in : (path : Bytes) → Quietly (files.open_in path)
  pub opens_out : (path : Bytes) → Quietly (files.open_out path)
  pub closes : (stream : Iostream E) → Quietly (files.close stream)
  pub reads :
      (path : Bytes) (t t' : Thread E) (stream : Iostream E)
      → files.open_in path t ≡ some (some stream, t')
      → (stream.address ≢ 0) × IsReturning stream
  pub writes :
      (path : Bytes) (t t' : Thread E) (stream : Iostream E)
      → files.open_out path t ≡ some (some stream, t')
      → (stream.address ≢ 0) × IsReturning stream

module _ (sdk : Sdk) (files : Filesystem sdk.Env) where
  module _ (good : sdk.Signer → Type 0) (host : Hosted sdk good) (ready : IsReady files) where
    -- What a call outside the library leaves alone.
    in_thread-Ends :
        {A : Type 0} (m : M (Thread sdk.Env) A) (w : Memory sdk)
        → IsCalm sdk good w
        → Quietly m
        → Ends sdk good
            (λ a c.
              (c.holds ≡ (view w).holds) × ((t' : Thread sdk.Env) × (m w.thread ≡ some (a, t'))))
            (in_thread m)
            w
    in_thread-Ends m w v answers =
        let (a, t', run, error) = answers w.thread in
        returns a (record w { thread = t' }) (in_thread-returns m w a t' run)
          (record { valid = v.valid; every = v.every }) (refl, (t', run))

    -- A file that is not open, and one that is: afterwards it is closed.
    pub with_file-Ends :
        {A : Type 0} (Q : Result A Bytes → Holdings → Type 0)
        (opening : M (Thread sdk.Env) (Option (Iostream sdk.Env))) (unopened : Cpp sdk A)
        (body : Iostream sdk.Env → Cpp sdk A) (w : Memory sdk)
        → IsCalm sdk good w
        → Quietly opening
        → ((u : Memory sdk)
            → IsCalm sdk good u
            → (view u).holds ≡ (view w).holds
            → Ends sdk good (λ r c. Q r c.holds) (unopened) u)
        → ((stream : Iostream sdk.Env) (u : Memory sdk) (t' : Thread sdk.Env)
            → IsCalm sdk good u
            → (view u).holds ≡ (view w).holds
            → opening w.thread ≡ some (some stream, t')
            → Ends sdk good (λ r c. Q r c.holds) (body stream) u)
        → Ends sdk good (λ r c. Q r c.holds) (with_file sdk files opening unopened body) w
    unfolding with_file
    with_file-Ends {A} Q opening unopened body w v answers shut open_body =
        Ends-bind sdk good (in_thread opening) _ w (in_thread-Ends opening w v answers)
          λ opened u v' (kept, (t', run)). used opened u t' v' kept run
      where
        used :
            (opened : Option (Iostream sdk.Env)) (u : Memory sdk) (t' : Thread sdk.Env)
            → IsCalm sdk good u
            → (view u).holds ≡ (view w).holds
            → opening w.thread ≡ some (opened, t')
            → Ends sdk good (λ r c. Q r c.holds) (use_file sdk files unopened body opened) u
        used none u t' v' kept run = shut u v' kept
        used (some stream) u t' v' kept run =
            Ends-bind sdk good (body stream) _ u (open_body stream u t' v' kept run)
              λ r x v'' outcome.
                Ends-bind sdk good (in_thread (files.close stream)) _ x
                  (in_thread-Ends (files.close stream) x v'' (ready.closes stream))
                  λ _ y v3 (held, _). Ends-pure sdk good r y v3 (subst (Q r) (sym held) outcome)
