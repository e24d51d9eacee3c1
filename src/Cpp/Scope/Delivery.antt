-- ===== src/Cpp/Scope/Delivery.antt =====
-- How the members that return manifest bytes end (src/c2pa.cpp, lines 609 to 756), as a client of
-- the C interface sees it.
use c2pa_c.Common.{
  ℕ, Bytes, [], ◌∷◌, Option, none, some, Result, ok, err, ℤ, is_negative, true, as_c_int, ◌≡◌, ◌≢◌,
  ◌∙◌, refl, sym, ap,
}
use c2pa_c.Error.{Error}
use c2pa_c.Stream.{Ptr}
use c2pa_c.Memory.{update}
use c2pa_c.CApi.{minus_one}
use c2pa_c.CApi.Protocol.{a_stream, a_slice, Holdings, with_kind}
use c2pa_c.CApi.Protocol.Clients.{with_kind-other}
use c2pa_c.Cpp.Ends.{what_of}
use c2pa_c.Cpp.Scope.Streams.{with_kind-swap, new_beside}

-- A variable of C, with what it points at.
abbrev pub with_variable : Holdings → Ptr → Ptr → Holdings
with_variable h slot p = record h { variables = update h.variables slot p }

-- Two objects that an error may free.
abbrev pub Loss : Type 0
Loss = Option (Ptr × Ptr)

abbrev pub without_both : Holdings → Ptr × Ptr → Holdings
without_both h (b, g) = with_kind (with_kind h b none) g none

module _ (slot : Ptr) (loss : Loss) (before : Holdings) where
  -- The call of C has given bytes away, through the variable; or it has failed.
  pub data CallEnd (code : ℤ) (after : Holdings) (error : Option Error) : Type 0 where
    delivered :
        (n : ℕ) (p : Ptr)
        → code ≡ as_c_int n
        → p ≢ 0
        → before.kinds p ≡ none
        → after ≡ with_variable (with_kind before p (some (a_slice n))) slot p
        → CallEnd code after error
    failed :
        (e : Error) → code ≡ minus_one → after ≡ before → error ≡ some e → CallEnd code after error
    both_lost :
        (e : Error) (two : Ptr × Ptr)
        → loss ≡ some two
        → code ≡ minus_one
        → after ≡ without_both before two
        → error ≡ some e
        → CallEnd code after error

  -- The member returns one byte, which is freed. Or it throws: the error that the call has set,
  -- where the call may have freed two objects; or, for more bytes than a `c_int` holds, any text,
  -- and the bytes are left.
  pub data Emitted (null_text : Bytes) (r : Result Bytes Bytes) (after : Holdings)
      (error : Option Error) : Type 0 where
    one_byte :
        (byte : ℕ) (p : Ptr)
        → r ≡ ok (byte ∷ [])
        → after ≡ with_variable before slot p
        → Emitted null_text r after error
    refused :
        (e : Error)
        → r ≡ err (what_of null_text (some e))
        → after ≡ with_variable before slot 0
        → error ≡ some e
        → Emitted null_text r after error
    refused_lost :
        (e : Error) (two : Ptr × Ptr)
        → loss ≡ some two
        → r ≡ err (what_of null_text (some e))
        → after ≡ with_variable (without_both before two) slot 0
        → error ≡ some e
        → Emitted null_text r after error
    too_long :
        (n : ℕ) (p : Ptr) (what : Bytes)
        → is_negative (as_c_int n) ≡ true
        → r ≡ err what
        → before.kinds p ≡ none
        → after ≡ with_variable (with_kind before p (some (a_slice n))) slot p
        → Emitted null_text r after error

-- Two objects apart from a third.
abbrev pub Apart : Loss → Ptr → Type 0
Apart loss q = (two : Ptr × Ptr) → loss ≡ some two → (two.0 ≢ q) × (two.1 ≢ q)

module _ (slot q : Ptr) (loss : Loss) (before : Holdings) (free : before.kinds q ≡ none)
    (apart : Apart loss q) where
  abbrev beside : Holdings
  beside = with_kind before q (some a_stream)

  lost_beside :
      (two : Ptr × Ptr)
      → loss ≡ some two
      → ((without_both before two).kinds q ≡ none)
        × (without_both beside two ≡ with_kind (without_both before two) q (some a_stream))
  lost_beside (b, g) may =
      let (ne, ne') = apart (b, g) may in
      (
        with_kind-other (with_kind before b none) g q none ne'
            ∙ (with_kind-other before b q none ne ∙ free),
        ap (λ h. with_kind h g none)
              (with_kind-swap before q b (some a_stream) none (λ e. ne (sym e)))
            ∙ with_kind-swap (with_kind before b none) q g (some a_stream) none (λ e. ne' (sym e)),
      )

  -- Where the stream stands besides, a call ends as it would alone, and so does a member.
  pub CallEnd-beside :
      (code : ℤ) (after : Holdings) (error : Option Error)
      → CallEnd slot loss beside code after error
      → (h : Holdings) × (h.kinds q ≡ none)
        × (after ≡ with_kind h q (some a_stream))
        × CallEnd slot loss before code h error
  CallEnd-beside code after error (delivered n p said ne new made) =
      let (apart', new') = new_beside q before p new in
      (
        with_variable (with_kind before p (some (a_slice n))) slot p,
        with_kind-other before p q (some (a_slice n)) apart' ∙ free,
        made
            ∙ ap (λ h. with_variable h slot p)
                (with_kind-swap before q p (some a_stream) (some (a_slice n))
                  (λ e. apart' (sym e))),
        delivered n p said ne new' refl,
      )
  CallEnd-beside code after error (failed e said same told) =
      (before, free, same, failed e said refl told)
  CallEnd-beside code after error (both_lost e two may said gone told) =
      let (empty, same) = lost_beside two may in
      (without_both before two, empty, gone ∙ same, both_lost e two may said refl told)

  pub Emitted-beside :
      (null_text : Bytes) (r : Result Bytes Bytes) (after : Holdings) (error : Option Error)
      → Emitted slot loss beside null_text r after error
      → (h : Holdings) × (h.kinds q ≡ none)
        × (after ≡ with_kind h q (some a_stream))
        × Emitted slot loss before null_text r h error
  Emitted-beside null_text r after error (one_byte byte p said made) =
      (with_variable before slot p, free, made, one_byte byte p said refl)
  Emitted-beside null_text r after error (refused e said same told) =
      (with_variable before slot 0, free, same, refused e said refl told)
  Emitted-beside null_text r after error (refused_lost e two may said gone told) =
      let (empty, same) = lost_beside two may in
      (
        with_variable (without_both before two) slot 0,
        empty,
        gone ∙ ap (λ h. with_variable h slot 0) same,
        refused_lost e two may said refl told,
      )
  Emitted-beside null_text r after error (too_long n p what long said new made) =
      let (apart', new') = new_beside q before p new in
      (
        with_variable (with_kind before p (some (a_slice n))) slot p,
        with_kind-other before p q (some (a_slice n)) apart' ∙ free,
        made
            ∙ ap (λ h. with_variable h slot p)
                (with_kind-swap before q p (some a_stream) (some (a_slice n))
                  (λ e. apart' (sym e))),
        too_long n p what long said new' refl,
      )
