-- ===== src/Lib.antt =====
-- The Rust library behind the C interface of C2PA: a client written in C makes readers, builders,
-- signers and streams, passes pointers to them around, and reads the last error as a text. The
-- library takes the pointers back, calls the c2pa SDK, and gives results away as pointers or codes.
-- Over the C interface stands a wrapper of classes for C++.
--
-- The parts, and the code that each models (paths from the repository's root):
--   Common: numbers with Boolean tests, lists and texts as bytes, the casts between machine words,
--     Rust's Result, actions with a state and a fault, and `String::from_utf8_lossy`.
--   Error (src/error.rs): `Error`, its texts, `from_c2pa_error` (Error/Convert), the last error of a
--     thread (Error/Last: `set_last`, `last_message`, `take_last`), and the texts as clients read
--     them (Error/Text).
--   Stream (src/c_stream.rs): `CStream` with `read`, `seek`, `write` and `flush` over callbacks of C;
--     Stream/TestStream is `TestCStream`, whose contexts point at cursors (Stream/Cursor): one
--     operation in Refinement, sequences in Runs, and the unit tests of the file in UnitTests.
--   Memory: the memory that Rust and C share, used by the functions of src/c_api.rs. `from_raw`,
--     `into_raw` and `alloc` are `Box::from_raw`, `Box::into_raw` of an object taken back and of a
--     new one, `borrow` is `&mut *pointer`, `write_slot` writes a pointer variable of C, and
--     `fail_with` is an early return with the last error set. Memory/Laws has validity and
--     Memory/Frame rules for what an action may touch and may leave there.
--   Sdk: what src/ uses of the crates c2pa and serde_json, as a record of types and operations; it
--     is a parameter of everything that follows. Sdk/Calm says which SDK answers: its operations
--     return, with a result or an error, when the streams and signers they are given do.
--   SignerInfo (src/signer_info.rs) and JsonApi (src/json_api.rs): the functions on files; a step of
--     a long function that is a definition of its own is named there. JsonApi/Total has runs with an
--     SDK that answers.
--   CApi (src/c_api.rs): the macros, then the exported functions under their own names: CApi/Files,
--     CApi/Reading, CApi/Building, CApi/Signing and CApi/Signers; CApi/Streams has the two exported
--     functions of src/c_stream.rs. CApi/Frame says what each may touch, CApi/Ownership who owns an
--     object after a call, and CApi/Session has lists of calls, as a client makes them, and
--     CApi/Threads the turns of threads that share the memory.
--   CApi/Protocol: the contract of the interface as a client reads it, without the SDK and without the
--     memory: which kinds of object the client holds, what a call wants (`Ready`), and what it may do
--     (`Allowed`, by the outcomes of Outcomes). Rules and one module for each part of the interface
--     take the functions one by one, Soundness all the calls; Program is about clients that look at
--     the replies, Clients and Twice about clients that free a builder.
--   Cpp (src/c2pa.cpp, include/c2pa.hpp): the C++ wrapper over CApi. Cpp has the exception and the
--     functions, Cpp/Iostream the callbacks of `CppIStream`, `CppOStream` and `CppIOStream` over a
--     stream of the standard library, which is a parameter, Cpp/Scope the objects that live to the
--     end of a scope, and Cpp/Signer, Cpp/Reader and Cpp/Builder the classes: an object is its
--     pointers, and a copy shares them. Cpp/Paths has the overloads that open files; the files are a
--     parameter, too. A function that may throw returns a result, or the message of an exception.
--     Cpp/Ends is a logic of runs over the contract of CApi/Protocol: a run returns, or it faults for
--     a reason that is stated of the calls that the run itself makes. Texts, Settings, Files and the modules below the others
--     have the theorems: Scope/Delivery, Copying and Taking, and Builder/Outcomes and Emitting are
--     about manifest bytes; Builder/Making, Members, Playing and Life are about a builder from a
--     constructor to its destructor.
--   Tests: an SDK that can be run, and the theorems at inputs.
--
-- How the code is read:
--   * A state is passed on: a thread (its last error, errno, and the world outside the library), or
--     the shared memory with a thread in it. `none` is a fault: undefined behaviour or an abort, as
--     a pointer that does not point at a live object of its type, two mutable borrows of one stream,
--     a length beyond a capacity, or a layout other than that of the allocation.
--   * A function that returns early drops the boxes that it has taken back and not given away again.
--   * Machine words: `usize`, `isize` and `u64` have 64 bits and `c_int` has 32; casts wrap, by
--     Common/Int.
--   * Addresses are natural numbers, null is 0, and an address is used for one object only, so that
--     a use after a free is a fault. Running out of memory is not modelled. An empty boxed slice has
--     an address like any other.
--   * A `const char*` is null or the bytes before its terminating zero, and an array of C is its
--     bytes. What the SDK does is any function of its arguments and the thread: callbacks of C that it
--     runs may set the last error, change the world outside, or fault, but they do not call the
--     functions of the interface that change the shared memory.
--   * Two choices of the standard library of C++ are parameters (fields of `Sdk`). The text that comes
--     of `std::string` of a null pointer is undefined by the standard, and then it is a fault;
--     `Exception()` makes such a string where the last error has a text with a zero byte. The theorems
--     on C++ are for a library that has some text for it, as libstdc++ does in the exception that it
--     throws. And the data of an empty vector may be null or not.
--   * The variables of C that a call writes through a pointer are apart from the objects, and each
--     pointer that is not null is taken to point at one: that is what the caller owes.
--   * Each thread has its own last error, by what `thread_local!` means.
--   * Threads are interleaved call by call: a call of the interface is one step.
--   * Unit tests are actions, in which a failed assertion is a fault.
--   * Nothing runs on fuel: the code has no loop of its own.
--
-- Not modelled: what the C++ wrapper prints; the generated header, examples and build files; the
-- tests on files, which need the SDK; and the contents of manifests, signatures and readers, which
-- are the SDK's.
pub mod Common
pub mod Error
pub mod Stream
pub mod Memory
pub mod Sdk
pub mod SignerInfo
pub mod JsonApi
pub mod CApi
pub mod Cpp
mod Tests
