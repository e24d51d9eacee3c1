-- ===== src/Cpp/Scope/Taking.antt =====
-- What is made of manifest bytes (src/c2pa.cpp, lines 618 to 625), over the contract of the C
-- interface.
use c2pa_c.Common.{
  ◌>>=◌, ℕ, Bytes, Bool, true, false, none, some, Result, ℤ, is_negative, as_u64, as_c_int, gets,
  ◌≡◌, ◌≢◌, ◌∙◌, refl, sym, ap, inl, inr, ◌==◌, arith, Bool-cases, ==_ne, ==_refl,
}
use mathlib.Core.Path.{fun_ext, subst}
use c2pa_c.Stream.{Ptr}
use c2pa_c.Memory.{write_slot, update}
use c2pa_c.Sdk.{Sdk}
use c2pa_c.CApi.{Api, null}
use c2pa_c.CApi.Protocol.{Client, a_slice, Holdings, with_kind, view}
use c2pa_c.CApi.Protocol.Clients.{with_kind-at, with_kind-drop}
use c2pa_c.CApi.Protocol.Rules.{Memory, holdings_eq}
use c2pa_c.Cpp.Ends.{
  Hosted, IsCalm, Ends, EndsOr, faults, Ends-weaken, Ends-any, Ends-as, Ends-bind-run, Ends-excuse,
}
use c2pa_c.Cpp.Texts.{throw-Says, throw-Throws}
use c2pa_c.Cpp.Scope.{taken, manifest_bytes_of}
use c2pa_c.Cpp.Scope.Delivery.{
  without_both, with_variable, Loss, CallEnd, delivered, failed, both_lost, Emitted, one_byte,
  refused, refused_lost, too_long,
}
use c2pa_c.Cpp.Scope.Copying.{copied, copied-stuck, copied-one}

module _ (sdk : Sdk) (slot : Ptr) where
  -- The variable has been set to null.
  abbrev pub cleared_at : Memory sdk → Memory sdk
  cleared_at w = record w { slots = update w.slots slot null }

  -- A call has said a size that is no error, and the variable points at bytes, which are not one
  -- byte.
  abbrev pub Misfit : ℤ → Memory sdk → Type 0
  Misfit code u =
      (n : ℕ) × (n ≢ 1)
      × (code ≡ as_c_int n)
      × (is_negative code ≡ false)
      × ((view u).holds.kinds (u.slots slot) ≡ some (a_slice n))

  -- A call that runs after the variable has been set to null ends in this way.
  abbrev pub Sent : Api sdk ℤ → Memory sdk → Type 0
  Sent run w = (code : ℤ) × (u : Memory sdk) × (run (cleared_at w) ≡ some (code, u)) × Misfit code u

taken-copied :
    (sdk : Sdk) (code : ℤ) (p : Ptr) (u : Memory sdk)
    → is_negative code ≡ false
    → p ≢ 0
    → taken sdk code p u ≡ copied sdk p (as_u64 code) u
unfolding taken copied
taken-copied sdk code p u fits ne = rw (fits, ==_ne p 0 ne) refl

module _ (sdk : Sdk) (good : sdk.Signer → Type 0) (host : Hosted sdk good) (slot : Ptr) where
  module _ (loss : Loss) (before : Holdings) where
    abbrev cleared : Holdings
    cleared = with_variable before slot 0

    abbrev Q : Result Bytes Bytes → Client → Type 0
    Q r c = Emitted slot loss before host.null_text r c.holds c.error

    written :
        (h : Holdings) (p : Ptr)
        → with_variable (with_variable h slot 0) slot p ≡ with_variable h slot p
    written h p = holdings_eq (λ q. refl) (fun_ext (λ q. ground arith))

    -- Bytes that were given away.
    delivered-Emitted :
        (n : ℕ) (p : Ptr) (u : Memory sdk)
        → IsCalm sdk good u
        → p ≢ 0
        → before.kinds p ≡ none
        → (view u).holds ≡ with_variable (with_kind cleared p (some (a_slice n))) slot p
        → u.slots slot ≡ p
        → EndsOr sdk good (Misfit sdk slot (as_c_int n) u) Q (taken sdk (as_c_int n) p) u
    unfolding taken copied
    delivered-Emitted n p u v ne new made at = elim (Bool-cases (is_negative (as_c_int n))) [
      | inl long ↦ rw long (
          Ends-weaken sdk good
            (λ r c (said, held, _).
              too_long n p _ long said new
                (held ∙ (made ∙ written (with_kind before p (some (a_slice n))) p)))
            (Ends-any sdk good (throw-Says sdk good host u v)))
      | inr fits ↦
          Ends-as sdk good (taken-copied sdk (as_c_int n) p u fits ne) (by_size fits (n == 1) refl)
    ]
      where
        here : (view u).holds.kinds p ≡ some (a_slice n)
        here = ap (λ h. h.kinds p) made ∙ with_kind-at cleared p (some (a_slice n))

        by_size :
            is_negative (as_c_int n) ≡ false
            → (b : Bool) → (n == 1) ≡ b
            → EndsOr sdk good
                (Misfit sdk slot (as_c_int n) u)
                Q
                (copied sdk p (as_u64 (as_c_int n)))
                u
        by_size fits true one =
            let same : n ≡ 1 = ground (arith, one) in
            rw same (
              Ends-weaken sdk good
                (λ r c (byte, said, held). one_byte byte p said (
                  held
                  ∙ (ap (λ h. with_kind h p none) made
                      ∙ (ap (λ h. with_variable h slot p)
                            (with_kind-drop cleared p (some (a_slice n)) new)
                          ∙ written before p))))
                (copied-one sdk good host p u v (here ∙ ap (λ k. some (a_slice k)) same)))
        by_size fits false other =
            faults
              (n, ground (arith, other), refl, fits, ap (λ q. (view u).holds.kinds q) at ∙ here)
              (copied-stuck sdk p (as_u64 (as_c_int n)) n u ne (ground (arith, other)) here)

    -- What the call has left is taken.
    taken-Emitted :
        (code : ℤ) (u : Memory sdk)
        → IsCalm sdk good u
        → CallEnd slot loss cleared code (view u).holds (view u).error
        → EndsOr sdk good (Misfit sdk slot code u) Q (taken sdk code (u.slots slot)) u
    unfolding taken
    taken-Emitted code u v (delivered n p said ne new made) =
        let at : u.slots slot ≡ p = ap (λ h. h.variables slot) made ∙ rw (==_refl slot) refl in
        rw said (
          subst
            (λ q. EndsOr sdk good (Misfit sdk slot (as_c_int n) u) Q (taken sdk (as_c_int n) q) u)
            (sym at) (delivered-Emitted n p u v ne new made at))
    taken-Emitted code u v (failed e said same told) = rw said (
        Ends-weaken sdk good (λ r c (text, held, error). refused e text held error)
          (Ends-any sdk good (throw-Throws sdk good host u v cleared e same told)))
    taken-Emitted code u v (both_lost e two may said gone told) = rw said (
        Ends-weaken sdk good (λ r c (text, held, error). refused_lost e two may text held error)
          (Ends-any sdk good
            (throw-Throws sdk good host u v (without_both cleared two) e gone told)))

    -- The variable, a call, and what it has left.
    pub manifest_bytes_of-Emitted :
        (run : Api sdk ℤ) (w : Memory sdk)
        → IsCalm sdk good w
        → (view w).holds ≡ before
        → ((u : Memory sdk)
            → IsCalm sdk good u
            → (view u).holds ≡ cleared
            → Ends sdk good (λ code c. CallEnd slot loss cleared code c.holds c.error) run u)
        → EndsOr sdk good (Sent sdk slot run w) Q (manifest_bytes_of sdk slot run) w
    unfolding manifest_bytes_of write_slot
    manifest_bytes_of-Emitted run w v start calls_end = Ends-as sdk good refl (
        Ends-bind-run sdk good run
          (λ code. do manifest_bytes ← gets λ w. w.slots slot; taken sdk code manifest_bytes)
          (cleared_at sdk slot w)
          (Ends-any sdk good (
            calls_end (cleared_at sdk slot w) (record { valid = v.valid; every = v.every })
              (ap (λ h. with_variable h slot 0) start)))
          λ code x ran v' outcome. Ends-as sdk good {m = taken sdk code (x.slots slot)} refl (
            Ends-excuse sdk good (λ misfit. (code, x, ran, misfit))
              (taken-Emitted code x v' outcome)))
