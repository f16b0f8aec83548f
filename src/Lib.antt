-- ===== src/Lib.antt =====
-- mldsa-auth: mutual authentication with ML-DSA signatures over a hybrid key exchange, and the
-- padded record layer that its keys protect. The modules follow the C files:
--
--   WireInt               src/util/wire_int.c
--   Wire                  src/protocol/transcript.c and .h: the three messages, their encoders and
--                         decoders. A struct is a record, a buffer the list of its bytes; a nonzero
--                         return is `none`, and *out_len or *consumed stands beside the result.
--   Transcript            the hash functions of the same file, over SHA-256 as a record of its
--                         init, update and final.
--   Pending               the pending-handshake ledger of src/protocol/handshake.c. The store keeps
--                         its slots as a list and where they stand as a `Home`; each reading of the
--                         clock is an argument.
--   Crypto.Aead           src/crypto/aead.c, over a record of the two libsodium calls.
--   Crypto.Kex            src/crypto/kex.c, over records of X25519 and of HKDF-SHA256.
--   Crypto.Mlkem, Mldsa   src/crypto/mlkem_wrap.c and mldsa_wrap.c, over records of the liboqs calls,
--                         with their random coins as an argument.
--   Keystore              src/protocol/keystore.c, with an id as the list of its bytes.
--   Handshake             the contexts of src/protocol/handshake.c: Init, Initiator, Responder and
--                         Keys have its functions. `Ctx` is handshake_ctx_t, with lookup_fn and its
--                         lookup_ctx as a function; the random bytes, the allocations and the clock
--                         readings of one call are its `Env`. `attempt` is a step with `goto fail`.
--                         Machine has the calls of both roles as one step function, and Guarded
--                         runs sequences of them.
--   Session               src/protocol/session.c and .h: `session_seal` and `session_open` give an
--                         `Outcome` of the status, the session after the call, the buffer and
--                         *out_len. The addresses of the buffers are arguments, for
--                         `ranges_overlap`; Records has them, Init makes a session.
--   ProxyV2               apps/authd/proxy_v2.c and .h, the incremental parser.
--   Ratelimit             apps/authd/ratelimit.c and .h, over SipHash as a function from keys to
--                         numbers and a table of 1024 entries; RATELIMIT_ENTRIES as an index, for
--                         "not found", is `none`.
--   Authmsg               apps/authd/authmsg.c and .h: the messages inside the records, and in Rotate
--                         the key rotation with its digest, over the SHA-256 of Transcript.
--   Frame                 apps/frame.c and .h, over a record of net_read_exact and net_write_all.
--   Base                  lists, Boolean tests and bytes that these share.
--
-- The ledger is a table from handshake ids to entries; `Pending.Cell` says what each operation does
-- to one entry, and `Pending.Refine` that the code does that. `Pending.Life` has the
-- wipe and the inits too, which replace the ledger. `Session.Sequence` runs seals and opens on one
-- session in any order, with their nonces in `Session.Nonces`; `Session.Ended` adds the init. All loops are structural, over the slots, the bytes of a number or a list.
-- Numbers are naturals, with the wrap-around of the C types written out (`% 2 ^ 64`, `% 256`).
--
-- A pointer that the code compares with NULL is taken to be there, except those that the state
-- keeps (the slots of a store, the key block of a session). Memory that is wiped is a list of zeros;
-- that the compiler keeps a wipe is outside of the model. Not modelled are the primitives (SHA-256,
-- ChaCha20-Poly1305, HKDF, X25519, ML-KEM, ML-DSA, SipHash), locked memory, the sockets, and of the
-- daemon the WebSocket layer, its connections, its store, its configuration and its command line.
pub mod Base
pub mod WireInt
pub mod Wire
pub mod Transcript
pub mod Pending
pub mod Crypto
pub mod Keystore
pub mod Handshake
pub mod Session
pub mod ProxyV2
pub mod Ratelimit
pub mod Authmsg
pub mod Frame
