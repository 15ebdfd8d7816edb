-- ===== src/Lib.antt =====
-- BioFire-MPC: threshold custody of digital assets, in TypeScript. The library models its parts on
-- lists of code units and of bytes, native numbers and explicit states.
--
-- The parts and their files:
--
-- * Policy (Policy.antt, Policy/): lib/policy/policy_engine.ts under src, with the policy part of
--   types.ts. A signing request is evaluated against the active policy: `evaluate_policy` is
--   evaluatePolicy with its early returns and its checks in their order, `simulate_transaction` is
--   simulateTransaction, and `update_policy`, `record_spending`, `reset_daily_spending` and `cleanup`
--   are the operations that change the state. The times and the draw that decides on a sweep are the
--   record `Env`. The engine calls the address check of Sanitize.
-- * Sanitize (Sanitize.antt): lib/security/input_sanitization.ts, one function per validator, with
--   keccak_256 as a parameter of the checksum of EVM addresses.
-- * Paillier (Paillier.antt, Paillier/): lib/crypto/paillier.ts, the homomorphic encryption of the
--   signing protocol: `mod_pow`, `mod_inverse`, `gcd`, `keys_from_primes`, `encrypt`, `decrypt`,
--   `add_encrypted` and `multiply_encrypted_by_scalar`. The search for primes is in
--   Paillier/Primes.antt. Modular.antt has the laws of remainders and powers that its proofs use.
-- * Audit (Audit.antt, Audit/): lib/audit/audit_chain.ts, the hash chain in memory and its rows in the
--   database: `append_log`, `verify_chain_integrity`, `get_logs`, `init_chain`, `persist_entry`, and
--   `get_merkle_root` in Audit/Merkle.antt. The database is a record of its two statements with the
--   documented effect of INSERT OR IGNORE and ORDER BY as a law.
-- * Serializer (Serializer.antt, Serializer/): lib/network/binary_serializer.ts, the binary format of
--   the network: `encode_field`, `pack`, and `unpack_header`, which is unpack up to its fields, in
--   Serializer.antt, and decodeField and the rest of unpack in Serializer/Fields.antt. Its bytes are
--   what the license signature is taken of.
-- * License (License.antt, License/): lib/licensing, that is license_blob.ts in License.antt,
--   heartbeat.ts in License/Heartbeat.antt and license_kernel.ts in License/Kernel.antt.
-- * Session (Session.antt, Session/): lib/security/session_guard.ts, the sessions and the key shares
--   that are encrypted under them, one definition per static method of SessionBoundKeyGuard.
-- * Secure (Secure.antt, Secure/): lib/security/secure_buffer.ts, the buffers that are wiped,
--   with their comparison and the export of numbers in Secure/Export.antt.
-- * Queue (Queue.antt, Queue/): lib/protocol/pre_computation_engine.ts, the queue of precomputed tuples:
--   `start`, `begin_stop` and `finish_stop`, which are stop before and after its wait, `consume_tuple`
--   and `ingest_batch`, the handler of a worker's message. A run is a list of such steps.
-- * Governance (Governance.antt, Governance/): lib/governance/governance_engine.ts in Types, Engine,
--   Policies, Approval and Emergency, one definition per method, each with the governance state before
--   and after it; lib/governance/vdf/vdf_engine.ts in Vdf; lib/governance/bls/bls_engine.ts in Bls. A
--   run of the engine is a member of Steps.Reachable. The Merkle loop is that of Audit, the keys are
--   buffers of Secure and the powers those of Paillier.
-- * Mta (Mta.antt, Mta/): lib/crypto/mta_zkp.ts, the products of secrets turned into sums over the
--   encryption of Paillier, the range proofs and the audit of a round.
-- * Random (Random.antt, Random/): lib/security/secure_random.ts, with the bytes of the system as
--   arguments, and lib/security/constant_time.ts.
-- * Mpc (Mpc.antt, Mpc/): lib/protocol/mpc_cmp.ts, key generation in Dkg and Sessions and threshold
--   signing in Signing, and the arithmetic of lib/crypto/secp256k1.ts that they use in Numbers.
-- * Refresh (Refresh.antt, Refresh/): lib/protocol/key_refresh_engine.ts, with the ceremony in
--   Refresh/Ceremony.antt, whose phases are those of executeRefresh.
-- * Transport (Transport.antt, Transport/): lib/network/transport.ts, one definition per event of a
--   socket and per method; the comparison of tags is that of Random.
-- * Address (Address.antt, Address/): lib/crypto/address_derivation.ts, the encodings in
--   Address/Encodings.antt, the addresses of the four chains in Address/Derive.antt, and the child keys
--   in Address/Child.antt. Address/Xor.antt has the laws of the exclusive or.
-- * Enclave (Enclave.antt, Enclave/): lib/crypto/hsm_enclave.ts, the software driver and the driver of
--   KMS, and the status that HSMEnclaveSimulator reports.
-- * Fuzzer (Fuzzer.antt, Fuzzer/): lib/chaos/state_machine_fuzzer.ts, the table of transitions and the
--   random sequences of runCampaign; a draw is an argument.
-- * Base.antt and Base/: what the parts share: Boolean tests, equality as an instance, lists indexed
--   by native numbers, JavaScript strings as code units, maps in insertion order, integers.
--
-- Numbers. A bigint is a natural number or an integer; a JavaScript number is taken for an integer
-- where the code uses it as one. Bytes of the big-endian fields keep their wrap-around (% 2 ^ 8), and
-- the field that unpack reads is the signed number of 32 bits that the shifts give.
--
-- Loops. The rounds of square-and-multiply run on the exponent, which falls in each; the Euclidean
-- loop runs on its second number; the Merkle loop runs on the number of leaves, which halves in each
-- round; and the digits of a number run on the number, which has no more digits than that.
--
-- Libraries that are not part of the repository (@noble/hashes, @noble/curves, better-sqlite3,
-- TextEncoder) are parameters of the definitions that call them. Times and random draws are
-- arguments.
--
-- Not modelled: the HTTP server and its routes (server.ts), logging and metrics, the connection to
-- the database, the worker threads, the hardware fingerprint, the telemetry with its random noise, and
-- the other chaos tools (race detector, side-channel analyzer, serializer fuzzer), whose effects are
-- outside the program; and the parts of secp256k1.ts and ed25519.ts that signing does not use, which
-- mostly call @noble/curves. What the protocols send is a result of theirs.
pub mod Address
pub mod Audit
pub mod Base
pub mod Enclave
pub mod Fuzzer
pub mod Governance
pub mod License
pub mod Modular
pub mod Mpc
pub mod Mta
pub mod Paillier
pub mod Policy
pub mod Queue
pub mod Random
pub mod Refresh
pub mod Sanitize
pub mod Secure
pub mod Serializer
pub mod Session
pub mod Transport
