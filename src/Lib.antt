-- ===== src/Lib.antt =====
-- libsignal-zig: models of the Signal protocol library's core, and the theorems that make it
-- correct.
--
-- The program. A session (src/session_cipher.zig) holds a state (src/state/session_state.zig): a
-- root key, a sending chain, receiving chains with their cache of skipped message keys, and the
-- serialized state of a post-quantum ratchet (src/spqr.zig). Encryption takes a message key from
-- the sending chain, mixes the post-quantum key into it (src/ratchet, src/kdf.zig), encrypts with
-- AES-CBC (aes_cbc in src/session_builder.zig) and frames the result as an authenticated protobuf
-- message (src/messages, src/proto.zig). Decryption parses, looks the key up in a receiving chain
-- or takes a DH ratchet step, checks the MAC and decrypts. A first state comes from the key
-- agreement of src/ratchet/alice.zig and bob.zig, over pre-keys stored as in src/state. A group
-- (src/group_session_builder.zig, src/group_cipher.zig) shares one chain key by a distribution
-- message, and signs each message instead of authenticating it. C callers reach all this through
-- include/signal_ffi.h, whose functions src/ffi exports: pointers to objects, buffers, error
-- objects, and tables of callbacks that keep sessions, keys and records. Two programs,
-- examples/c/main.c and examples/cpp/main.cpp, fill these tables with stores of their own and run
-- the library end to end.
--
-- The files, and the code that they are about:
--   Prelude: helpers. Prelude.Result has Zig's error unions; Prelude.Bytes and Prelude.Bits have
--     byte strings, little-endian numbers and bit operations; Prelude.Tests has comparisons.
--   Crypto, Xeddsa: interfaces, see below.
--   Proto: src/proto.zig. decodeVarint, encodeVarint, nextField, the Encoder. A buffer with its
--     position is a Cursor of the position and the rest; an Encoder is the bytes that it holds.
--     Proto.Varint, Proto.Fields and Proto.Malformed hold the theorems; Proto.Writes and
--     Proto.Switch what the parsers of the messages share.
--   Curve, Kdf: src/curve.zig (keys and their serialized forms), src/kdf.zig.
--   Ratchet: src/ratchet/chain_key.zig, message_keys.zig and root_key.zig. Ratchet.Agreement:
--     initialize in src/ratchet/alice.zig and src/ratchet/bob.zig.
--   Session: src/state/session_state.zig, init, addReceiverChain, getOrComputeMessageKeys;
--     Session.Chain, Session.Cache and Session.Receive hold the theorems.
--   SessionRecord: src/state/session_record.zig, over the states and their serialized form as
--     parameters.
--   Spqr: send and recv of src/spqr.zig. Spqr.Chain: src/spqr/chain.zig.
--   AesCbc: aes_cbc in src/session_builder.zig.
--   Records: src/state/pre_key_record.zig, signed_pre_key_record.zig, kyber_pre_key_record.zig.
--   Messages: the files of src/messages, a child module for each.
--   SessionCipher: encrypt, decryptWhisperMessage and getMessageKeys of src/session_cipher.zig.
--   Group: src/group_session_builder.zig and src/group_cipher.zig.
--   Fingerprint: src/fingerprint.zig. Identity: src/identity.zig. AccountKeys:
--     src/account_keys.zig. IncrementalMac: src/incremental_mac.zig. Curve.Generate: how
--     src/curve.zig makes keys.
--   Ffi: what a caller of include/signal_ffi.h sees. Ffi.ErrorCode has the header's error codes
--     and those of src/ffi/error.zig, Ffi.Stores the header's tables of callbacks; Ffi.Address,
--     Ffi.Keys, Ffi.Identity, Ffi.Records, Ffi.SenderKeys, Ffi.Misc, Ffi.Scannable and
--     Ffi.Macs are src/ffi/address.zig, keys.zig, records.zig, session.zig (the group calls),
--     identity_misc.zig and crypto.zig (the incremental MAC).
--   Examples: examples/c/main.c and examples/cpp/main.cpp. Examples.CStore and Examples.CppStore
--     are the two key-value stores, Examples.Keys the texts under which the programs store, with
--     Examples.Text for snprintf and its formats; Examples.Stores the callbacks and
--     Examples.Tests the tests, over what the two programs have apart (Examples.Stores.Program),
--     and Examples.Cpp the C++ program's own. Examples.Lawful shows that both programs' stores
--     keep what is put in them; Examples.Loads, Examples.Peers, Examples.Group, Examples.Bob and
--     Examples.Passes take that as a parameter. Examples.Talk has many group messages, some of
--     them lost; it lifts Group.Run, which is about the records alone, to the C interface and the
--     stores.
--   Tests: the theorems at concrete inputs.
--
-- How the code is rendered. A u8, u32, u64 or usize is a natural number; where Zig checks for an
-- overflow the model has `panic`, the result of safety-checked illegal behaviour (an overflow, a
-- failed @intCast or @enumFromInt, an index out of range), which is a panic in the safe build
-- modes. An error union is `ok` or `err`. A function that changes what a pointer leads to returns
-- the new value. Allocation does not fail. A function that draws randomness takes it as an
-- argument. A loop over nextField is a fold, parse_fields, with one definition for the body.
--
-- The C interface. A call gives an Outcome: `success` with what it writes to its output, `failure`
-- with the code of the error object, `abort` where the process ends (abort(), a panic), and `hang`
-- for a loop without end. A write outside a buffer of the C program is undefined, and is `abort`
-- too. A pointer is an Option; a callback returns the context that it leaves behind; what is
-- destroyed or freed is a value, so that these calls do nothing. MUST turns a failure into abort.
--
-- Fuel. parse_fields runs for one round more than the buffer has bytes, and each field takes a
-- byte at least; the loops over a chain run for the difference of the two counters, which each
-- round makes smaller by one; CBC runs for the number of blocks; `update` of the incremental MAC
-- runs for the number of bytes, of which each round takes one at least, unless chunks are empty.
-- `stuck` is the result of too little fuel.
--
-- Parameters. Crypto stands for what the program calls of std.crypto: HKDF, HMAC, SHA-512, X25519
-- and ML-KEM-1024, with the output lengths that their types state. BlockCipher is one block of
-- AES-256, where deciphering undoes enciphering. Xeddsa stands for src/xeddsa.zig, with
-- signatures of 64 bytes. Machine stands for src/spqr/state.zig, with no law: the theorems name
-- what they take of a run of it. No theorem assumes that a primitive is secure.
--
-- KeyGen is key generation in std.crypto from a seed: X25519, the product with the base point, and
-- ML-KEM-1024. Examples.Kv is a store of bytes under texts, with the laws Examples.IsLawful.
--
-- Not modelled: the serialized form of a session (src/state/session_state.zig), the session
-- builder and the handling of the five stores around encrypt and decrypt, and with them
-- test_session of the example programs; usernames and test_username; the state machine of the
-- post-quantum ratchet with its erasure code and its lattice arithmetic (src/spqr); the sealed
-- sender, identifiers; the rest of the C interface's accessors, and the error contexts.
pub mod Prelude
pub mod Proto
pub mod Crypto
pub mod Xeddsa
pub mod Curve
pub mod AesCbc
pub mod Kdf
pub mod Ratchet
pub mod Session
pub mod SessionRecord
pub mod Spqr
pub mod Records
pub mod Messages
pub mod SessionCipher
pub mod Group
pub mod Fingerprint
pub mod AccountKeys
pub mod IncrementalMac
pub mod Identity
pub mod Ffi
pub mod Examples
pub mod Tests
