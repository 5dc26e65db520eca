-- ===== src/Lib.antt =====
-- HDiffPatch: binary diff and patch. This library models the code that reads and writes the diff
-- data and restores the new data from the old data.
--
-- The program has two sides. hdiffz searches for covers, ranges of the new data that resemble
-- ranges of the old data, and writes them with the differences as a diff. hpatchz reads a diff and
-- the old data and writes the new data. The search is a heuristic that only chooses the covers, so
-- the covers are a parameter here.
--
-- Prelude: names, lists measured by native numbers, Boolean tests, chains of fallible steps (a C
-- function that returns hpatch_FALSE is none), bit operations.
-- Varint: hpatch_packUIntWithTag, hpatch_packUIntWithTag_size, hpatch_unpackUIntWithTag
-- (libHDiffPatch/HPatch/patch.c). A pointer with its end is the list of bytes between them; a
-- value is a number below 2 ^ 64 with the wrap-around written out.
-- Rle: TByteRleType and _bytesRle_load (libHDiffPatch/HPatch/patch.c, patch_private.h).
-- Rle.Encoder: TStreamRLE and bytesRLE_save (libHDiffPatch/HDiff/private_diff/bytes_rle.cpp), its
-- state as the record StreamRle. Rle.Runs is the specification between them: a sequence of runs
-- and the bytes that it stands for.
-- MemPatch: patch and addData (libHDiffPatch/HPatch/patch.c). PatchState holds the variables of
-- the cover loop; cover_round is one round with all its checks. MemPatch.Serialize: serialize_diff
-- (libHDiffPatch/HDiff/diff.cpp), with the bytes that its two streams deliver
-- (libHDiffPatch/HDiff/private_diff/limit_mem_diff/stream_serialize.cpp).
-- Lite: hpatch_lite_patch and what it calls (libHDiffPatch/HPatchLite/hpatch_lite.c), with the
-- callbacks of hpatchi_listener_t as fields of the record Listener, and the cache as the record
-- InputCache. Lite.Spec is the format, as functions of the whole diff without a cache; Lite.Cache,
-- Lite.Refine, Lite.Adds and Lite.Transparent relate the code to it step by step.
-- Lite.Cache.IsServed names what the callbacks are relied on for: a read of the diff delivers the
-- next bytes, at most those asked for and one at least where some are left, and old data are read
-- and new data written as asked.
-- The fuel of hpatch_lite_patch bounds the bytes of one number; the loops that copy and add take
-- as many rounds as bytes are left, since a round takes one at least.
-- Lite.Head: _hpi_readSize and hpatch_lite_open (libHDiffPatch/HPatchLite/hpatch_lite.c), and the
-- head that serialize_lite_diff writes (libHDiffPatch/HDiff/diff.cpp).
-- Adler: adler32_roll and adler32_by_combine
-- (libHDiffPatch/HDiff/private_diff/limit_mem_diff/adler_roll.c), with the wrap-around of 32 and
-- 64 bits. Adler.Roll.adler32 is the checksum by its definition, two sums modulo 65521.
-- MemStream: streams on memory and parts of streams (libHDiffPatch/HPatch/patch.c). A stream is a
-- state with a function that reads or writes it; MemStream.Access has the two laws that the caches
-- rely on, `Random` for streams that are read anywhere and `Accepts` for streams that are written
-- from their begin on, for memory as for parts of a stream.
-- Clip: TStreamCacheClip, which reads a part of a stream through a cache
-- (libHDiffPatch/HPatch/patch.c and patch_private.h). A clip is related to the list of the bytes
-- that it has left (Clip.Reads.IsClip).
-- OutCache: _TOutStreamCache, which writes through a cache, related to the list of all that was
-- written (OutCache.Writes.IsOut).
-- RleStream: _TBytesRle_load_stream, related to the list of the difference bytes that are left
-- (RleStream.Steps.IsLoader over RleStream.Spec.bytes_left). The loops have as fuel the bytes that
-- are asked for, or the control bytes that are left, since a round takes one of them at least.
-- PatchStream: _TCovers, patchByClip, read_diff_head, _packedCovers_open and
-- _patch_stream_with_cache. PatchStream.Spec.list_patch is what patchByClip does on lists; Parts,
-- NextCover, Adds, Rounds, Refine, Tail and Whole relate the streams to it part by part, Written
-- and Encoded are about the streams that serialize_diff writes, and Heads, Stream, Opened and
-- Restores about where the streams are opened.
-- OutCache.SelfCopy: _TOutStreamCache_copyFromSelf.
-- DiffzHead: read_diffz_head (libHDiffPatch/HPatch/patch.c) and _outType
-- (libHDiffPatch/HDiff/diff.cpp).
-- Varint.Exact: a reader of numbers without bound, which hpatch_unpackUIntWithTag is compared
-- with. Rle.Relation: the rounds that a run-length code allows, as a relation without fuel.
-- MemPatch.Bounds: a run of the cover loop with the bounds of its rounds.
-- A _TCovers has three clips, which are three objects, as _packedCovers_open makes them.
-- OutCache.FromStream: _TOutStreamCache_copyFromStream from a stream that is not the written one;
-- FromStream.Supplies names what it relies on, that a read inside the stream gives its bytes.
-- The build is the one with __RUN_MEM_SAFE_CHECK and a size_t of 64 bits. Loops over a value that
-- shrinks are recursions on the order of the numbers. The loop of _bytesRle_load runs on fuel, the
-- number of its control bytes: each round takes one at least.
--
-- Not modelled: what follows the head of a compressed diff, the single compressed diff, the caches
-- of the old data, the in-place patch of HPatchLite, directories, VCDIFF and bsdiff data, threads,
-- files and the command lines, nor the search for covers. Threads, files and the command lines are
-- mostly calls of the operating system, and the compression libraries are not in the repository.
pub mod Prelude
pub mod Adler
pub mod Clip
pub mod DiffzHead
pub mod Lite
pub mod MemPatch
pub mod MemStream
pub mod OutCache
pub mod PatchStream
pub mod Rle
pub mod RleStream
pub mod Varint
