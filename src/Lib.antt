-- ===== src/Lib.antt =====
-- The C code of the repository: the implementation of BLAKE3 (c/), the custody of packets that is
-- built on it (c/), and of the programs under rmr/ the two implementations of SHA-256 and the
-- supervisor of critical operations, and the format ZRF1.
--
-- Base: the shared names, Boolean tests on the native numbers, C arrays as lists, words with their
-- wrap-around, and the laws of the bitwise operations.
--
-- BLAKE3. Impl models c/blake3_impl.h (constants, tables, integer helpers, loads and stores) and
-- Portable c/blake3_portable.c. Backend is the interface that c/blake3_dispatch.c offers: a record of
-- operations, the laws that the hasher relies on (Backend/Lawful) and the portable code as an
-- instance of both (Backend/Portable). The C code passes a chaining value or a key as an array of
-- eight words; Backend/OnWords cuts or fills the list that stands for it. Dispatch models that file
-- as built for amd64, over any SIMD back ends. Sse models c/blake3_sse41.c and
-- c/blake3_sse2.c: the root holds the intrinsics and what their manual says, Sse/Rows and Sse/Many
-- the code that the two files have in common, Sse/Sse41 and Sse/Sse2 what is not, and Sse/Machine
-- vectors on which the manual holds. Avx2 does the same for c/blake3_avx2.c, and Dispatch/Vectors
-- puts them all behind the dispatch, which Dispatch/Lawful fits to the laws of the hasher. Wide is the hashing of one input to a lane, over any vectors.
-- Output, Chunk, Subtree and Hasher model the parts of
-- c/blake3.c: `output_t`, `blake3_chunk_state`, `compress_subtree_wide` with its callers and callees,
-- and `blake3_hasher`. Merkle and Tree are the specification: the tree over a list of nodes in any
-- type with a parent operation, and the tree over the chunks of an input. Chunk/Spec is the chunk as
-- a fold over its blocks. Hasher/Stack says what the values on the stack stand for, and Hasher/Hashed
-- what a hasher holds between updates. Tests applies the theorems to inputs, and Vectors runs the
-- model on a published vector.
--
-- Custody models c/rafaelia_packet_custody.c on top of the hasher: Custody/Streams the calls
-- on a stream, the rest of them in the root. Custody/Digest says what its
-- digests are, Custody/Bitmap reads the bitmap digit by digit, Custody/Record what a call does,
-- Custody/Invariant the invariant, Custody/Run sequences of calls as a relation.
--
-- Sha256 models rmr/core/hash_sha256.c and Sha256/Unrolled the compression that
-- rmr/crypto_freestanding140/addresses/H01/kernel/rmr_cf140_sha256_compress.c writes out without
-- loops. Sha256/Blocks says what a context holds. Guard models the state machine of
-- rmr/crypto_freestanding140/control/rmr_cf140_guard.c, Guard/Runs and Guard/Commits its runs.
--
-- Zrf models rmr/android/free/src/main/cpp/zipraf_free.c, which packs bytes under a header with their
-- BLAKE3 digest: Zrf/Runs and Zrf/Decode treat the run-length encoding, Zrf/RoundTrip the whole
-- format and Zrf/Fits inputs that no packing made. Cf140 models
-- rmr/crypto_freestanding140/kernel/rmr_cf140_ops.c, the operations on byte arrays of that program.
--
-- A function that writes through a pointer returns what it wrote; an array of chaining values is a
-- list of them, and a returned count is the length of its list. A result is `none` where the C code
-- would run over an array of chaining values or the stack of the hasher, read there what was not
-- written, fail an assertion, or not leave a loop. Arrays have the sizes that their C types say, which a
-- caller that passes them sees to: a load past the end of the list for an array gives 0, and a
-- payload that is shorter than the length given with it is taken as it is, with no fault for either.
-- A pointer that may be NULL is an option. `size_t` has 64 bits. Loops and recursions whose bound is not the
-- structure of the data take fuel: the length of the input for the loops that consume it, 64 rounds
-- for loops over the digits of a word and for the padding of SHA-256, 55 levels for the subtrees of
-- at most 2 ^ 54 chunks, and 5 tests for the condensing of at most 16 values.
--
-- Not modelled: the builtins of compilers, the SIMD back ends for AVX-512 and for NEON
-- (c/blake3_avx512.c and c/blake3_neon.c), of which Dispatch takes as a hypothesis that the first
-- computes what the portable code computes, prefetching, the instructions that Dispatch reads the
-- features from, its branches for NEON and for builds without a back end, threads,
-- the `strlen` of `blake3_hasher_init_derive_key`, and `pai_sha256_hex`. Nor are the other programs
-- under rmr/: the topology, stability, geometry and format codes, and the command lines, benches,
-- hardware and Java interfaces and calls of OpenSSL, which are input and output.
pub mod Base
pub mod Impl
pub mod Portable
pub mod Merkle
pub mod Backend
pub mod Output
pub mod Chunk
pub mod Tree
pub mod Subtree
pub mod Hasher
pub mod Tests
pub mod Vectors
pub mod Custody
pub mod Guard
pub mod Sha256
pub mod Zrf
pub mod Dispatch
pub mod Cf140
pub mod Sse
pub mod Wide
pub mod Avx2
