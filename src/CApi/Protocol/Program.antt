-- ===== src/CApi/Protocol/Program.antt =====
-- Clients of the C interface (src/c_api.rs): programs that call it and look at the replies.
use c2pa_c.Common.{some, ◌>>=◌, pure, ◌≡◌, refl, arith}
use c2pa_c.Memory.Laws.{IsValid, Every}
use c2pa_c.Sdk.{Sdk}
use c2pa_c.Sdk.Calm.{Answering, Calm, IsSound}
use c2pa_c.CApi.{Api}
use c2pa_c.CApi.Session.{Call, Reply, perform}
use c2pa_c.CApi.Session.Safety.{Admits, perform-Keeps}
use c2pa_c.CApi.Protocol.{Client, Ready, Allowed, view}
use c2pa_c.CApi.Protocol.Rules.{Memory}
use c2pa_c.CApi.Protocol.Soundness.{perform-Allowed}

pub data Program (sdk : Sdk) : Type 0 where
  finish : Program sdk
  call : Call sdk → (Reply → Program sdk) → Program sdk

module _ (sdk : Sdk) where
  unfoldable pub play : Program sdk → Api sdk (Unit {0})
  unfolding perform
  play finish = pure tt
  play (call c next) = perform sdk c >>= λ reply. play (next reply)

  -- A program follows the contract when it is ready for each of its calls, gives it streams that
  -- answer and good signers, and goes on to do so whatever the call may do. At the end `Q` holds.
  unfoldable pub Follows : (sdk.Signer → Type 0) → (Client → Type 0) → Program sdk → Client → Type 0
  unfolding Ready Allowed
  Follows good Q finish s = Q s
  Follows good Q (call c next) s =
      Ready c s
      × Admits sdk Answering good c
      × ((r : Reply) (s' : Client) → Allowed c s r s' → Follows good Q (next r) s')

  -- With an SDK that answers, and from a valid memory whose streams answer and whose signers are
  -- good, a program that follows the contract with `Q` at its end runs to that end: no call faults
  -- or hangs, the memory is valid and sound again, and `Q` holds of what the client then sees.
  pub play-returns :
      (good : sdk.Signer → Type 0)
      → Calm sdk good
      → (Q : Client → Type 0) (program : Program sdk) (w : Memory sdk) → IsValid w
      → Every (IsSound sdk good) w
      → Follows good Q program (view w)
      → (w' : Memory sdk) × (play program w ≡ some (tt, w'))
        × IsValid w'
        × Every (IsSound sdk good) w'
        × Q (view w')
  unfolding play Follows
  play-returns good calm Q finish w v s end = (w, refl, v, s, end)
  play-returns good calm Q (call c next) w v s (ready, admits, rest) =
      let step = perform-Allowed sdk good calm w v s c ready in
      let kept =
        perform-Keeps sdk c admits w (record { valid = v; every = s }) (omega arith) step.result
          step.after step.ran in
      let (w', run, v', s', end) =
        play-returns good calm Q (next step.result) step.after kept.fits.valid kept.fits.every
          (rest step.result (view step.after) step.meets) in
      (w', rw (step.ran, ◌>>=◌) run, v', s', end)
