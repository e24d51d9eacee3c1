-- ===== src/Tests/Protocol.antt =====
-- The theorems on the contract of the C interface, at inputs.
use c2pa_c.Common.{
  Bool, true, false, Bytes, arith, ℕ, codes, [], none, some, ◌≡◌, ◌⊎◌, refl, ap, ◌∙◌, inr,
}
use c2pa_c.Memory.{World}
use c2pa_c.Memory.Laws.{IsValid, Every}
use c2pa_c.Sdk.{Block}
use c2pa_c.Sdk.Calm.{IsSound}
use c2pa_c.CApi.{has_zero}
use c2pa_c.CApi.Session.{Call, Reply, perform}
use c2pa_c.CApi.Protocol.{Client, SaysBy, a_text, Succeeds, Allowed, Ready, view}
use c2pa_c.CApi.Protocol.Program.{Program, finish, call, play, Follows, play-returns}
use c2pa_c.CApi.Protocol.Clients.{
  with_kind-at, with_kind-other, new_apart, fill_once, fill_once-balanced,
}
use c2pa_c.CApi.Protocol.Clients.Signing.{sign_once, sign_once-balanced}
use c2pa_c.CApi.Protocol.Twice.{add_resource, failed-freed_twice}
use c2pa_c.Tests.Demo.{demo, world, world-IsValid}
use c2pa_c.Tests.Calm.{AnySigner, demo-Calm, world-IsSound}

-- A resource without a name, which the SDK refuses.
abbrev refusal : Call demo
refusal = Call.builder_add_resource 1 (some []) 2

refusal-Ready : Ready refusal (view world)
unfolding Ready
refusal-Ready = (refl, refl)

-- A client that frees the reader at 5.
abbrev reader_client : Program demo
reader_client = call (Call.reader_json 5) λ text. call (Call.reader_free 5) λ _. finish

abbrev ReaderGone : Client → Type 0
ReaderGone s = s.holds.kinds 5 ≡ none

reader_client-Follows : Follows demo AnySigner ReaderGone reader_client (view world)
unfolding Follows Ready Allowed
reader_client-Follows = (refl, tt, by_text)
  where
    freed :
        (r : Reply) (s s' : Client)
        → Allowed {sdk = demo} (Call.reader_free 5) s r s'
        → ReaderGone s'
    freed r s s' (_, gone, _) = ap (λ h. h.kinds 5) gone ∙ with_kind-at s.holds 5 none

    by_zero :
        (b : Bool) (t : Bytes) (r : Reply) (s : Client)
        → SaysBy (view world) r s b t
        → Follows demo AnySigner ReaderGone (call (Call.reader_free 5) λ _. finish) s
    by_zero true t r s (_, same) = (inr (ap (λ h. h.kinds 5) same), tt, λ r s'. freed r s s')
    by_zero false t r s (p, _, _, here, made) = (
      inr (
          ap (λ h. h.kinds 5) made
          ∙ with_kind-other (view world).holds p 5 (some (a_text t))
              (new_apart (view world).holds p 5 here refl)),
      tt,
      λ r s'. freed r s s',
    )

    by_text :
        (r : Reply) (s : Client)
        → Allowed {sdk = demo} (Call.reader_json 5) (view world) r s
        → Follows demo AnySigner ReaderGone (call (Call.reader_free 5) λ _. finish) s
    by_text r s (t, says) = by_zero (has_zero t) t r s says

play-returns_example :
    (w' : World ℕ (Block demo)) × (play demo reader_client world ≡ some (tt, w'))
    × IsValid w'
    × Every (IsSound demo AnySigner) w'
    × ReaderGone (view w')
play-returns_example =
    play-returns demo AnySigner demo-Calm ReaderGone reader_client world world-IsValid world-IsSound
      reader_client-Follows

fill_once-balanced_example :
    (w' : World ℕ (Block demo)) × (play demo (fill_once (some (codes "{}")) (some []) 2) world
      ≡ some (tt, w'))
    × ((view w').holds ≡ (view world).holds)
fill_once-balanced_example =
    fill_once-balanced demo AnySigner demo-Calm world world-IsValid world-IsSound
      (some (codes "{}")) (some []) 2 refl

failed-freed_twice_example :
    (r : Reply) × (w' : World ℕ (Block demo)) × (perform demo refusal world ≡ some (r, w'))
    × (Succeeds (view world) r (view w') ⊎ (perform demo (Call.builder_free 1) w' ≡ none))
failed-freed_twice_example =
    failed-freed_twice demo AnySigner demo-Calm world world-IsValid world-IsSound refusal 1
      (add_resource (some []) 2) refusal-Ready

sign_once-balanced_example :
    (w' : World ℕ (Block demo)) × (play demo
        (sign_once (some (codes "{}")) (some (codes "image/jpeg")) 2 3 4)
        world
      ≡ some (tt, w'))
    × ((view w').holds ≡ (view world).holds)
sign_once-balanced_example =
    sign_once-balanced demo AnySigner demo-Calm world world-IsValid world-IsSound
      (some (codes "{}")) (codes "image/jpeg") 2 3 4 refl refl refl (omega arith)
