-- ===== src/Lib.antt =====
-- slangmake: permutations of a shader, the blobs that store their compiled code, and the reader of
-- those blobs.
--
-- A shader source announces axes by magic comments (`// [permutation] NAME={a,b}`). The parser turns
-- them into directives, the directives of the command line replace those of the file with the same
-- name, and the expander makes one permutation for each combination of values. The batch compiler
-- compiles each permutation and gives the bytes to a blob writer under the permutation's key; the
-- blob reader finds them again under that key at run time.
--
-- Files:
--   Prelude      lists, byte strings, Boolean tests, sorting and chains of options, shared by all
--   Enums        the enums of include/slangmake.hpp with their names and codes: targetToString,
--                parseTarget, codecToString, parseCodec, targetToBlobCode, blobCodeToTarget
--   Permutation  Permutation::key; Expand: PermutationExpander::expand, mergePermutationDefines
--                (src/slangmake_util.cpp), findDuplicateAxisNames (src/slangmake_batch.cpp)
--   Directives   PermutationParser::parse and sourceHasNoReflection (src/slangmake_util.cpp), with
--                the scanners of nested value lists in Nesting and Values
--   Hash         FNV-1a (src/slangmake_internal_rt.h); Options: hashCompileOptions
--   Blob         src/slangmake_blob.cpp. Format: the packed structs and their bytes; Codecs:
--                compressPayload, decompressPayload; Writer: the state of BlobWriter, its operations
--                and finalize, in Dedup, Layout and Emit; Reader: BlobReader. The other children hold
--                the proofs: where the parts of the buffer stand (Placed, Padding, EntryPlaces, LaidOut,
--                Chunks, IndexPool, DepTable, Image, Parts), what a reader makes of them (ReadEntry, ReadBack,
--                Rebind, RoundTrip, Lookup), bytes from anywhere (Safety), a blob that
--                is not taken (Rejected)
--   Reflection   src/slangmake_reflection.cpp and src/slangmake_reflection_serialize.cpp. Format: the
--                structs of the tables as words; Section: the tables of ReflectionSerializer and the
--                end of serialize; View: ReflectionView and its accessors; Decode: decodeParam,
--                decodedEntryPoints, decodedGlobalParameters, decl; Builder: internStr, pushU32List,
--                modifiers and attributes; Slang: what is asked of Slang's objects; Walk: addType,
--                addTypeLayout, addVariable, addVarLayout, addFunction, addGeneric, addDecl,
--                addEntryPoint and serialize. EndToEnd and the other children hold the proofs
--   Compiler     Compiler::compile (src/slangmake_compiler.cpp) with its early returns; Options:
--                buildOptionEntries and toSlangCompileTarget (src/slangmake_util_compiler.cpp);
--                TypeArgs: the specialization arguments; Calls: what is asked of Slang. Bindings, Built,
--                Stages, Success and Outcomes hold the proofs
--   Batch        BatchCompiler::compileFile (src/slangmake_batch.cpp), with the reuse of previous
--                entries in Reuse, the list of dependencies in Deps, the worker threads in Workers, and
--                compileDirectory and the exit code of main in Directory
--   Cli          parseDefine, parsePermutation and parseBindShift (src/main.cpp)
--   Tests        the theorems at concrete inputs, and runs
--
-- How the model corresponds to the code: a buffer is the list of its bytes, a span is a slice of that
-- list, a null pointer is `none`, an exception is `none`, an operation takes the old state and gives
-- the new one. Casts to `uint32_t` wrap (`% 2 ^ 32`); offsets and sizes in `size_t` do not, since no
-- buffer comes near 2^64 bytes. Loops are recursion on the list they walk; the padding loops have
-- fuel, 8 rounds for a multiple of 8, 4 for a multiple of 4 and `n` rounds for a size of `n`, which
-- are as many as they can take. `std::sort` leaves the order of equal elements open; the model keeps
-- them in place, and the theorems that depend on the order say what they need of the elements. Bytes
-- are numbers, and only the bytes that the code itself computes are known to be below 256.
--
-- The file system and the compilation of a permutation are an argument of the batch compiler: the
-- content of each file, which nobody else changes during a run, and the result for each
-- permutation; in Batch/Directory the files are a state, which the write of each blob changes.
-- Batch computes the results in order; Batch/Workers has the worker threads as a step relation, in
-- which any thread may take the next step, and relates what they leave to the loop in order. The
-- cache of file hashes changes nothing where files do not change. Slang's sessions, modules and
-- components are numbers for Compiler, and its calls an argument that gives the diagnostics and,
-- where the call succeeds, the object.
--
-- LZ4 and zstd are parameters: two functions for each, with the hypothesis that compression succeeds
-- and that decompression into a buffer of the right size gives the bytes back.
--
-- Slang's reflection objects are an argument of the serializer: pointers are numbers, and functions
-- give what the calls on each object return. Its recursion has fuel: the maps from pointers to indices
-- make each object be visited once, so a program whose pointers are below `n` needs one round for each
-- of the seven kinds of objects below `n`. A read outside a span is undefined in the source; where a
-- decoding function makes one, the model gives `none`.
--
-- Not modelled: the log, the errors of the file system, the options of the command line, which the
-- CLI11 library parses, and the C API, which passes calls and values on.
pub mod Prelude
pub mod Enums
pub mod Permutation
pub mod Hash
pub mod Directives
pub mod Blob
pub mod Reflection
pub mod Compiler
pub mod Batch
pub mod Cli
pub mod Tests
