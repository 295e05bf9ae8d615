-- ===== src/Lib.antt =====
-- The verification library of thinwallet's preprocessed-PBMO core
-- (experiments/preprocessed-pbmo).
--
-- The program. A wallet blinds the vectors of a prover's commitments with a one-time token and has
-- a remote service compute the multi-scalar multiplications. Its parts:
--   * token.rs: the token, its encrypted file format, and the store that makes a token one-time. The
--     store keeps a journal, an authenticated snapshot of one lifecycle record for each token, in
--     one file, and each token in a file of its own. A token goes from available to reserved to
--     spent or burned; `open` burns what was reserved when the process stopped.
--   * field.rs: the inputs of the domain-separated derivations of masks and challenges.
--   * transport.rs: the wire: authenticated frames, their payloads, the client's transports and the
--     service's request loop.
--   * provider.rs: the sessions. A session is started with a reserved token, masks the chunks of the
--     rows that are pushed, sends them to a transport or adds up their products itself, and takes the
--     token's corrections off the answer. In the malicious mode it keeps what it sent in a spool and
--     checks the answer against it, in a combination by challenges that depend on the answer.
--   * secure_spool.rs: the spool, a file that is appended to, sealed with a manifest, and read back.
--
-- The files.
--   Prelude            what the files share: Boolean tests, lists, equality tests, results, bytes
--                      Prelude.Action: methods that change a state and may fail
--   Token              token.rs: the data types and constants; Token.Codec: `Token::encode` and
--                      `Token::decode`, with the cursor in Token.Codec.Reader; Token.Generate: the
--                      generation of tokens
--   External           the parts of the program that are third-party code, as one record: bincode,
--                      XChaCha20-Poly1305, HMAC, SHA-256, the group of points and its scalars; and the
--                      laws of each that theorems take as hypotheses
--   Field              field.rs
--   Store.World        what a run of the store sees: the journal and the token files on disk, the
--                      memory of the store, the generations that the monotonic provider has seen,
--                      and which of the following system calls and existence tests fail
--   Store.Snapshot     token.rs: `validate_snapshot`, the journal's bytes, the changes of records
--   Store.Operations   token.rs: the methods of `TokenStore`, each a function of the world
--   Store.Lifecycle    the abstract lifecycle, a step relation on snapshots
--   Wire               transport.rs: the data types and constants. Wire.Frame: `tag_frame`,
--                      `write_frame`, `read_frame`; Wire.Parser: `Cursor`; Wire.Messages: the
--                      payloads; Wire.Checks: `validate_header`, `validate_chunk` and
--                      `validate_complete`; Wire.Server: `handle_tcp_connection`;
--                      Wire.Loopback: `LoopbackTransport`; Wire.Tcp: `TcpTransport`
--   Spool              secure_spool.rs: `SecureSpool` over a directory. Spool.Files and
--                      Spool.Contents: what its operations do to the files
--   Provider           provider.rs: the data of sessions and `start_session`. Provider.Stream:
--                      `push_chunk`; Provider.Finish: `finish` and `Drop`; Provider.Providers: the
--                      implementations of `PreprocessedPbmoProvider`. The other modules below it
--                      are about sums of points (Algebra, Sums, Aggregate), pushes (Pushes, Rows,
--                      Serves, RowByRow, Served, Tally), the steps of a session (Runs, Answers, Endings,
--                      Spooled, Combination) and whole sessions (Products, Total, Soundness,
--                      Finalized)
--   Tests              a concrete instance of External and runs of the code
--
-- How state and operations correspond. A method with `&mut self` is a function from a world to a
-- result and a world. Every system call of the source is a `syscall` at the same place, which
-- succeeds or fails as the world's list of outcomes says; a call that fails ends the method by `?`
-- with the world as it is then. `Path::exists` gives `false` where its call fails, so it has
-- outcomes of its own, one list for the journal and one for the token files. A rename takes effect
-- as a whole or not at all, and the temporary file of a rename is not kept. The lock makes the
-- methods of several processes run one after the other, so a history is a sequence of calls; a
-- method that returns early drops the lock file, which releases the lock.
--
-- A method of a session is an action on the session (Prelude.Action). The transport of a session is
-- a record of methods over a state, so a theorem that takes one holds for every transport. The
-- directory of a spool is its files by name with the outcomes of the system calls to come. A TCP
-- connection is the bytes that come in, those that were sent, and the outcomes of the writes to
-- come.
--
-- Bounds and recursion. Every recursion is structural on a list or a count, so no fuel is needed.
-- The generation is a u64 and `next_generation` fails at 2^64 - 1, like `checked_add`; lengths that
-- the source casts to u32 keep the cast. The counters of the server's loop and of sessions wrap, as
-- in a release build. The server's loop is structural on the list of what `read_frame` returns; the
-- list ends where the stream does, and the next read fails.
--
-- Not modelled. Of token.rs the detection of duplicate ids by files, the counters of syncs and the
-- timings of a profiled generation; the clock, the random generator (what it fills is an argument),
-- the lock file's contents and file permissions; of transport.rs the options of sockets, the trace
-- file and the timings; of provider.rs the phase markers, the timings, the instrumentation feature
-- and the counts that follow from the others; of secure_spool.rs the opening of the directory's
-- path; the provers, which are copies of other libraries; the experiment drivers.
--
-- Hypotheses. What is proved of the store over calls leaves out a failure of `Path::exists` on the
-- journal (Store.World.Visible): the store then works as if it had no journal. The laws of bincode
-- and of the cipher are hypotheses (External.BincodeLaws, External.CipherLaws): decoding reads back
-- what encoding wrote. So are those of the points and scalars (External.GroupLaws,
-- External.ScalarLaws): a commutative group whose `msm` is the sum of the products, and scalars
-- that are read back from their 32 bytes.
pub mod Prelude
pub mod Token
pub mod External
pub mod Wire
pub mod Provider
pub mod Spool
pub mod Field
pub mod Store
pub mod Tests
