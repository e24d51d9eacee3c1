-- ===== src/CApi/Protocol/Outcomes.antt =====
-- What a client of the C interface (src/c_api.rs) holds, and the outcomes that a call may have.
use c2pa_c.Common.{
  Bool, true, false, [], ℕ, zero, suc, Bytes, Option, none, some, ℤ, pos, as_c_int, ◌≡◌, ◌≢◌,
}
use c2pa_c.Error.{Error, null_parameter, to_string}
use c2pa_c.Stream.{Ptr}
use c2pa_c.Memory.{update}
use c2pa_c.CApi.{CStr, null, minus_one, has_zero}
use c2pa_c.CApi.Session.{Reply, pointer, status, done}

-- What a pointer is good for. Of a text the client knows what it says, and of bytes
-- their number.
pub data Kind : Type 0 where
  a_builder a_reader a_signer a_stream : Kind
  a_text : Bytes → Kind
  a_slice : ℕ → Kind

-- The pointers that the client holds, and its variables.
pub record Holdings : Type 0 where
  pub kinds : Ptr → Option Kind
  pub variables : Ptr → Ptr

-- What the client knows: its holdings, and the error that `c2pa_error` would tell.
pub record Client : Type 0 where
  pub holds : Holdings
  pub error : Option Error

abbrev pub with_kind : Holdings → Ptr → Option Kind → Holdings
with_kind h p k = record h { kinds = update h.kinds p k }

module _ (s : Client) (r : Reply) (s' : Client) where
  abbrev pub Same : Type 0
  Same = s'.holds ≡ s.holds

  -- The call succeeds, with the code 0 or with nothing to say.
  abbrev pub Succeeds : Type 0
  Succeeds = (r ≡ status (pos 0)) × Same

  abbrev pub Finishes : Type 0
  Finishes = (r ≡ done) × Same

  -- The call fails with a code or with null, and the error is there to be told.
  abbrev pub Fails : Error → Type 0
  Fails e = (r ≡ status minus_one) × Same × (s'.error ≡ some e)

  abbrev pub FailsNull : Error → Type 0
  FailsNull e = (r ≡ pointer null) × Same × (s'.error ≡ some e)

  -- The call fails, and the object at `p` is gone; or two objects are.
  abbrev pub Loses : Ptr → Error → Type 0
  Loses p e = (r ≡ status minus_one) × (s'.holds ≡ with_kind s.holds p none) × (s'.error ≡ some e)

  abbrev pub LosesBoth : Ptr → Ptr → Error → Type 0
  LosesBoth p g e =
      (r ≡ status minus_one)
      × (s'.holds ≡ with_kind (with_kind s.holds p none) g none)
      × (s'.error ≡ some e)

  -- The object is freed, and null is no object.
  abbrev pub Frees : Ptr → Type 0
  Frees p = (r ≡ done) × (s'.holds ≡ with_kind s.holds p none) × (s'.error ≡ s.error)

  -- The client gets a new object.
  abbrev pub Makes : Kind → Type 0
  Makes k =
      (p : Ptr) × (r ≡ pointer p)
      × (p ≢ 0)
      × (s.holds.kinds p ≡ none)
      × (s'.holds ≡ with_kind s.holds p (some k))

  -- A text, or null for a text with a zero byte in it.
  abbrev pub SaysBy : Bool → Bytes → Type 0
  SaysBy true t = (r ≡ pointer null) × Same
  SaysBy false t = Makes (a_text t)

  abbrev pub Says : Bytes → Type 0
  Says t = SaysBy (has_zero t) t

  -- Some text.
  abbrev pub Tells : Type 0
  Tells = (t : Bytes) × Says t

  -- A size.
  abbrev pub Counts : (ℕ → ℤ) → Type 0
  Counts code = (n : ℕ) × (r ≡ status (code n)) × Same

  -- Bytes and their number: at a new address in the variable, or dropped without one.
  abbrev pub Delivers : Ptr → Type 0
  Delivers zero = Counts as_c_int
  Delivers (suc v) =
      (n : ℕ) × (p : Ptr) × (r ≡ status (as_c_int n))
      × (p ≢ 0)
      × (s.holds.kinds p ≡ none)
      × (s'.holds ≡ record {
        kinds = update s.holds.kinds p (some (a_slice n));
        variables = update s.holds.variables (suc v) p;
      })

-- With an error that is not known beforehand.
abbrev pub WithError : (Error → Type 0) → Type 0
WithError F = (e : Error) × F e

-- What there is to be told of an error.
abbrev pub message : Option Error → Bytes
message none = []
message (some e) = to_string e

-- What holds of a null argument, and of another one.
abbrev pub Given : CStr → Bytes → (Error → Type 0) → Type 0 → Type 0
Given none name F P = F (null_parameter name)
Given (some _) name F P = P

abbrev pub Present : Ptr → Bytes → (Error → Type 0) → Type 0 → Type 0
Present zero name F P = F (null_parameter name)
Present (suc _) name F P = P
