-- ===== src/Cpp/Paths/Reading.antt =====
-- A `Reader` on a path, and a resource that it writes to one (src/c2pa.cpp, lines 464 to 506),
-- over the contract of the C interface.
use c2pa_c.Memory.{in_thread}
use c2pa_c.Common.{
  gets, pure, ap, ◌∙◌, Bytes, List, Option, none, some, Result, ok, err, ◌>>=◌, ◌≡◌, ◌⊎◌, refl, inl,
  inr,
}
use mathlib.Core.Path.{subst}
use c2pa_c.Error.{Error}
use c2pa_c.Error.Last.{Thread}
use c2pa_c.Stream.{Ptr}
use c2pa_c.Memory.Laws.{in_thread-returns}
use c2pa_c.Sdk.{Sdk}
use c2pa_c.CApi.Protocol.{a_reader, a_stream, Holdings, with_kind, view}
use c2pa_c.CApi.Protocol.Rules.{Memory}
use c2pa_c.Cpp.{Cpp}
use c2pa_c.Cpp.Ends.{
  Hosted, IsCalm, Ends, returns, what_of, Ends-pure, Ends-gets, Ends-bind, Ends-weaken,
}
use c2pa_c.Cpp.Iostream.{Iostream}
use c2pa_c.Cpp.Iostream.Answers.{cpp_istream-Answering}
use c2pa_c.Cpp.Texts.{throw-Says}
use c2pa_c.Cpp.Reader.{CppReader}
use c2pa_c.Cpp.Reader.Members.{Opened, reader_new-Opened}
use c2pa_c.Cpp.Reader.Lifetime.{Scoped, CanWrite, with_reader, with_reader-Ends}
use c2pa_c.Cpp.Paths.{
  not_opened, use_file, reader_open, get_resource_file, Filesystem, with_file, skip_dot,
}
use c2pa_c.Cpp.Paths.Opening.{IsReady, with_file-Ends}

-- Nothing new; or a stream that is left at a new address.
abbrev LeftAt : Holdings → Holdings → Type 0
LeftAt before after =
    (after ≡ before)
    ⊎ ((p : Ptr) × (before.kinds p ≡ none) × (after ≡ with_kind before p (some a_stream)))

-- At the end all is as before; or there was an exception, and a stream is left at a new address.
abbrev pub PathScoped : Holdings → Result Bytes Bytes → Holdings → Type 0
PathScoped before r after =
    (after ≡ before)
    ⊎ ((what : Bytes) × (p : Ptr) × (r ≡ err what)
        × (before.kinds p ≡ none)
        × (after ≡ with_kind before p (some a_stream)))

-- The reader and its stream; or nothing new; or a stream that is left.
abbrev OpenedAt : Holdings → Result CppReader Bytes → Holdings → Type 0
OpenedAt before r after =
    ((o : CppReader) × (r ≡ ok o)
      × (before.kinds o.cpp_stream ≡ none)
      × ((with_kind before o.cpp_stream (some a_stream)).kinds o.c2pa_reader ≡ none)
      × (after
          ≡ with_kind (with_kind before o.cpp_stream (some a_stream)) o.c2pa_reader
              (some a_reader)))
    ⊎ ((what : Bytes) × (r ≡ err what) × LeftAt before after)

thrown_left :
    {before after : Holdings} (what : Bytes)
    → LeftAt before after
    → PathScoped before (err what) after
thrown_left what (inl kept) = inl kept
thrown_left what (inr (p, free, left)) = inr (what, p, refl, free, left)

Scoped-PathScoped :
    (null_text : Bytes) {before after : Holdings} {error : Option Error} (r : Result Bytes Bytes)
    → Scoped null_text before r after error
    → PathScoped before r after
Scoped-PathScoped null_text r (inl kept) = inl kept
Scoped-PathScoped null_text r (inr (e, p, said, free, left, _)) = inr (_, p, said, free, left)

module _ (sdk : Sdk) (files : Filesystem sdk.Env) where
  -- A reader on a path, its members, and the end of its scope.
  unfoldable pub path_scope :
      (source_path : Bytes) → List (Bytes × Iostream sdk.Env) → Cpp sdk Bytes
  unfolding reader_open with_reader
  path_scope source_path wanted = do
    opened ← reader_open sdk files source_path
    with_reader sdk wanted opened

  module _ (good : sdk.Signer → Type 0) (host : Hosted sdk good) (ready : IsReady files) where
    opened_at :
        {before h : Holdings} (r : Result CppReader Bytes) (after : Holdings) (error : Option Error)
        → h ≡ before
        → Opened host.null_text h r after error
        → OpenedAt before r after
    opened_at r after error kept opened = subst (λ x. OpenedAt x r after) kept (by_end opened)
      where
        by_end : {h : Holdings} → Opened host.null_text h r after error → OpenedAt h r after
        by_end (inl made) = inl made
        by_end (inr (e, p, said, free, left, _)) = inr (_, said, inr (p, free, left))

    reader_open-Ends :
        (w : Memory sdk)
        → IsCalm sdk good w
        → (path : Bytes)
        → Ends sdk good (λ r c. OpenedAt (view w).holds r c.holds) (reader_open sdk files path) w
    unfolding reader_open
    reader_open-Ends w v path =
        with_file-Ends sdk files good host ready (OpenedAt (view w).holds) (files.open_in path) _ _
          w v (ready.opens_in path)
          (λ u v' kept.
            Ends-bind sdk good (gets λ w. w.thread.errno)
              (λ errno. pure (err (not_opened sdk files path errno))) u
              (Ends-gets sdk good {Q = λ n c. c.holds ≡ (view u).holds} (λ w. w.thread.errno) u v'
                refl)
              λ errno x v'' same.
                Ends-pure sdk good (err (not_opened sdk files path errno)) x v''
                  (inr (_, refl, inl (same ∙ kept))))
          λ stream u t' v' kept run.
            let (ne, able) = ready.reads path w.thread t' stream run in
            Ends-weaken sdk good (λ r c opened. opened_at r c.holds c.error kept opened)
              (reader_new-Opened sdk good host u v' (skip_dot (files.extension path)) stream ne
                (cpp_istream-Answering stream able))

    with_reader-At :
        (wanted : List (Bytes × Iostream sdk.Env))
        → CanWrite sdk wanted
        → (before : Holdings) (opened : Result CppReader Bytes) (u : Memory sdk) → IsCalm sdk good u
        → OpenedAt before opened (view u).holds
        → Ends sdk good (λ r c. PathScoped before r c.holds) (with_reader sdk wanted opened) u
    unfolding with_reader
    with_reader-At wanted can before opened u v (inl made) =
        Ends-weaken sdk good (λ r c outcome. Scoped-PathScoped host.null_text r outcome)
          (with_reader-Ends sdk good host wanted can before opened u v (inl made))
    with_reader-At wanted can before (err what) u v (inr (_, _, left)) =
        Ends-pure sdk good (err what) u v (thrown_left what left)
    with_reader-At wanted can before (ok r) u v (inr (what, said, kept)) = cc

    module _ (w : Memory sdk) (v : IsCalm sdk good w) where
      -- With an SDK that answers, a standard library that has a text for null, a memory that is
      -- valid, and files that answer: a reader on a path, the resources that are asked for, each
      -- to a stream with an address, whose operations return, the text, and the end of the scope.
      -- The client holds what it held; or there was an exception, and the adapter of the file
      -- stays behind at a new address.
      pub path_scope-PathScoped :
          (path : Bytes) (wanted : List (Bytes × Iostream sdk.Env))
          → CanWrite sdk wanted
          → Ends sdk good (λ r c. PathScoped (view w).holds r c.holds) (path_scope path wanted) w
      unfolding path_scope
      path_scope-PathScoped path wanted can =
          Ends-bind sdk good (reader_open sdk files path) (with_reader sdk wanted) w
            (reader_open-Ends w v path)
            λ opened u v' made. with_reader-At wanted can (view w).holds opened u v' made

  module _ (good : sdk.Signer → Type 0) (host : Hosted sdk good) (w : Memory sdk)
      (v : IsCalm sdk good w) where
    -- With an SDK that answers, a standard library that has a text for null, and a memory that is
    -- valid: if the file for a resource cannot be opened, which leaves the last error alone, the
    -- exception says that error, which the interface has set before for another reason (or what
    -- the standard library makes of null, for a text with a zero byte), or is empty, and the
    -- client holds what it held.
    pub get_resource_file-stale :
        (r : CppReader) (uri path : Bytes) (t' : Thread sdk.Env)
        → files.open_out path w.thread ≡ some (none, t')
        → t'.last_error ≡ w.thread.last_error
        → Ends sdk good
            (λ x c. (x ≡ err (what_of host.null_text (view w).error)) × (c.holds ≡ (view w).holds))
            (get_resource_file sdk files r uri path)
            w
    unfolding get_resource_file with_file use_file
    get_resource_file-stale r uri path t' run same =
        Ends-bind sdk good
          {P = λ x c. (x ≡ none) × (c.holds ≡ (view w).holds) × (c.error ≡ (view w).error)}
          (in_thread (files.open_out path)) _ w
          (returns none (record w { thread = t' })
            (in_thread-returns (files.open_out path) w none t' run)
            (record { valid = v.valid; every = v.every }) (refl, refl, same))
          λ opened u v' (shut, kept, error). rw shut (
            Ends-weaken sdk good
              (λ x c (said, held, _).
                (said ∙ ap (λ e. err (what_of host.null_text e)) error, held ∙ kept))
              (throw-Says sdk good host u v'))
