-- ===== src/Cpp/Reader/Lifetime.antt =====
-- The scope of a `Reader` (src/c2pa.cpp, lines 454 to 516), over the contract of the C interface.
use c2pa_c.Common.{
  Bytes, List, [], ◌∷◌, none, some, Option, Result, ok, err, ◌>>=◌, ◌>>◌, pure, ◌≡◌, ◌≢◌, ◌⊎◌, ◌∙◌,
  refl, ap, inl, inr,
}
use c2pa_c.Error.{Error}
use c2pa_c.Stream.{Ptr}
use c2pa_c.Sdk.{Sdk}
use c2pa_c.CApi.Reading.{c2pa_reader_free}
use c2pa_c.CApi.Streams.{c2pa_release_stream}
use c2pa_c.CApi.Session.{Call, done, perform}
use c2pa_c.CApi.Protocol.{a_reader, a_stream, Holdings, with_kind, Ready, Allowed, view}
use c2pa_c.CApi.Protocol.Clients.{with_kind-at, with_kind-drop}
use c2pa_c.CApi.Protocol.Rules.{Memory}
use c2pa_c.Cpp.{Cpp}
use c2pa_c.Cpp.Ends.{Hosted, what_of, IsCalm, Ends, Ends-pure, Ends-bind, Ends-weaken, Ends-call}
use c2pa_c.Cpp.Iostream.{Iostream}
use c2pa_c.Cpp.Iostream.Answers.{IsReturning, cpp_istream-Answering, cpp_ostream-Answering}
use c2pa_c.Cpp.Reader.{CppReader, reader_new, reader_delete, json, get_resource}
use c2pa_c.Cpp.Reader.Members.{Opened, reader_new-Opened, json-Ends, get_resource-Ends}

-- At the end of a scope all is as before; or the constructor threw, and left its stream.
abbrev pub Scoped :
    (null_text : Bytes) → Holdings → Result Bytes Bytes → Holdings → Option Error → Type 0
Scoped null_text before r after error =
    (after ≡ before)
    ⊎ ((e : Error) × (p : Ptr) × (r ≡ err (what_of null_text (some e)))
        × (before.kinds p ≡ none)
        × (after ≡ with_kind before p (some a_stream))
        × (error ≡ some e))

-- An exception, whatever the result was to be.
abbrev rethrown : {A B : Type 0} → Result A B → Result Bytes B
rethrown (ok _) = ok []
rethrown (err what) = err what

abbrev opened_or : CppReader → Result CppReader Bytes → CppReader
opened_or o (ok r) = r
opened_or o (err _) = o

module _ (sdk : Sdk) where
  -- After an exception there is nothing more.
  unfoldable pub unless_thrown : {A B : Type 0} → Result A Bytes → Cpp sdk B → Cpp sdk B
  unless_thrown (err what) next = pure (err what)
  unless_thrown (ok _) next = next

  -- The members, as a client uses them: some resources, until one cannot be had, and the text.
  unfoldable pub read_all : CppReader → List (Bytes × Iostream sdk.Env) → Cpp sdk Bytes
  unfolding json get_resource unless_thrown
  read_all r [] = json sdk r
  read_all r ((uri, dest) ∷ rest) = do
    result ← get_resource sdk r uri dest
    unless_thrown result (read_all r rest)

  -- What the block does after the constructor.
  unfoldable pub with_reader :
      List (Bytes × Iostream sdk.Env) → Result CppReader Bytes → Cpp sdk Bytes
  unfolding reader_delete read_all
  with_reader wanted (err what) = pure (err what)
  with_reader wanted (ok r) = do result ← read_all r wanted; reader_delete sdk r; pure result

  -- A reader, its members, and the end of its scope.
  unfoldable pub read_scope :
      (format : Bytes) → Iostream sdk.Env → List (Bytes × Iostream sdk.Env) → Cpp sdk Bytes
  unfolding reader_new with_reader
  read_scope format stream wanted = do
    opened ← reader_new sdk format stream
    with_reader wanted opened

  -- Every stream to write to returns.
  abbrev pub CanWrite : List (Bytes × Iostream sdk.Env) → Type 0
  CanWrite [] = Unit
  CanWrite ((uri, dest) ∷ rest) = ((dest.address ≢ 0) × IsReturning dest) × CanWrite rest

module _ (sdk : Sdk) (good : sdk.Signer → Type 0) (host : Hosted sdk good) where
  unless_thrown-Ends :
      {A B : Type 0} (h : Holdings) (r : Result A Bytes) (next : Cpp sdk B) (w : Memory sdk)
      → IsCalm sdk good w
      → (view w).holds ≡ h
      → Ends sdk good (λ _ c. c.holds ≡ h) (next) w
      → Ends sdk good (λ _ c. c.holds ≡ h) (unless_thrown sdk r next) w
  unfolding unless_thrown
  unless_thrown-Ends h (err what) next w v same x = Ends-pure sdk good (err what) w v same
  unless_thrown-Ends h (ok _) next w v same x = x

  read_all-Ends :
      (w : Memory sdk)
      → IsCalm sdk good w
      → (r : CppReader) (wanted : List (Bytes × Iostream sdk.Env))
      → (view w).holds.kinds r.c2pa_reader ≡ some a_reader
      → CanWrite sdk wanted
      → Ends sdk good (λ _ c. c.holds ≡ (view w).holds) (read_all sdk r wanted) w
  unfolding read_all
  read_all-Ends w v r [] live can = json-Ends sdk good host w v r live
  read_all-Ends w v r ((uri, dest) ∷ rest) live ((ne, able), can) =
      Ends-bind sdk good (get_resource sdk r uri dest) _ w
        (get_resource-Ends sdk good host w v r uri dest live ne (cpp_ostream-Answering dest able))
        λ result u v' same. unless_thrown-Ends (view w).holds result _ u v' same (
          Ends-weaken sdk good (λ _ c h. h ∙ same)
            (read_all-Ends u v' r rest (ap (λ h. h.kinds r.c2pa_reader) same ∙ live) can))

  -- The end of the scope, where only the reader and its stream are there.
  reader_delete-Ends :
      (before : Holdings) (o : CppReader) (w : Memory sdk)
      → IsCalm sdk good w
      → before.kinds o.cpp_stream ≡ none
      → (with_kind before o.cpp_stream (some a_stream)).kinds o.c2pa_reader ≡ none
      → (view w).holds
        ≡ with_kind (with_kind before o.cpp_stream (some a_stream)) o.c2pa_reader (some a_reader)
      → Ends sdk good (λ _ c. c.holds ≡ before) (reader_delete sdk o) w
  unfolding reader_delete perform Ready Allowed
  reader_delete-Ends before o w v free new there =
      let opened = with_kind before o.cpp_stream (some a_stream) in
      Ends-bind sdk good (c2pa_reader_free sdk o.c2pa_reader) _ w
        (Ends-call sdk good host (Call.reader_free o.c2pa_reader) (λ _. done)
          (c2pa_reader_free sdk o.c2pa_reader) w refl v tt
          (inr (
            ap (λ h. h.kinds o.c2pa_reader) there
            ∙ with_kind-at opened o.c2pa_reader (some a_reader))))
        λ _ u v' (_, freed, _).
          let closed : (view u).holds ≡ opened =
            freed
            ∙ (ap (λ h. with_kind h o.c2pa_reader none) there
                ∙ with_kind-drop opened o.c2pa_reader (some a_reader) new) in
          Ends-weaken sdk good
            (λ _ c (_, gone, _).
              gone
              ∙ (ap (λ h. with_kind h o.cpp_stream none) closed
                  ∙ with_kind-drop before o.cpp_stream (some a_stream) free))
            (Ends-call sdk good host (Call.release_stream o.cpp_stream) (λ _. done)
              (c2pa_release_stream sdk o.cpp_stream) u refl v' tt
              (inr (
                ap (λ h. h.kinds o.cpp_stream) closed
                ∙ with_kind-at before o.cpp_stream (some a_stream))))

  pub with_reader-Ends :
      (wanted : List (Bytes × Iostream sdk.Env))
      → CanWrite sdk wanted
      → (before : Holdings) (opened : Result CppReader Bytes) (u : Memory sdk) → IsCalm sdk good u
      → Opened host.null_text before opened (view u).holds (view u).error
      → Ends sdk good
          (λ r c. Scoped host.null_text before r c.holds c.error)
          (with_reader sdk wanted opened)
          u
  unfolding with_reader
  with_reader-Ends wanted can before (err what) u v (inr (e, p, said, free, left, error)) =
      Ends-pure sdk good (err what) u v (inr (e, p, ap rethrown said, free, left, error))
  with_reader-Ends wanted can before (ok r) u v (inr (e, p, said, free, left, error)) = cc
  with_reader-Ends wanted can before (err what) u v (inl (o, said, free, new, there)) = cc
  with_reader-Ends wanted can before (ok r) u v (inl (o, said, free, new, there)) =
      rw (ap (opened_or o) said) (
        Ends-bind sdk good (read_all sdk o wanted) _ u
          (read_all-Ends u v o wanted
            (ap (λ h. h.kinds o.c2pa_reader) there
              ∙ with_kind-at (with_kind before o.cpp_stream (some a_stream)) o.c2pa_reader
                  (some a_reader))
            can)
          λ result x v' same.
            Ends-bind sdk good (reader_delete sdk o) _ x
              (reader_delete-Ends before o x v' free new (same ∙ there))
              λ _ y v'' back. Ends-pure sdk good result y v'' (inl back))

  module _ (w : Memory sdk) (v : IsCalm sdk good w) where
    -- With an SDK that answers, a standard library that has a text for null, and a memory that is
    -- valid: a reader from a stream, the resources that are asked for, each to a stream, until one
    -- cannot be had, the text, and the end of the scope, where the streams have addresses and their
    -- operations return. The run returns. The client holds what it held, also after an exception of a
    -- member; or the constructor throws the error (or what the standard library makes of null where
    -- its text has a zero byte), and the adapter of the stream stays behind at a new address.
    pub read_scope-Ends :
        (format : Bytes) (stream : Iostream sdk.Env) (wanted : List (Bytes × Iostream sdk.Env))
        → stream.address ≢ 0
        → IsReturning stream
        → CanWrite sdk wanted
        → Ends sdk good
            (λ r c. Scoped host.null_text (view w).holds r c.holds c.error)
            (read_scope sdk format stream wanted)
            w
    unfolding read_scope
    read_scope-Ends format stream wanted ne able can =
        Ends-bind sdk good (reader_new sdk format stream) (with_reader sdk wanted) w
          (reader_new-Opened sdk good host w v format stream ne (cpp_istream-Answering stream able))
          λ opened u v' outcome. with_reader-Ends wanted can (view w).holds opened u v' outcome
