-- ===== src/Lib.antt =====
-- csnip: a collection of C snippets. The development is about its ring buffer, rb/rb.h, a header
-- of functions on one struct, with the headers rb/rb_float.h and rb/rb_midi.h that move floats and
-- MIDI messages through it, and about its growing array, vector/vector.c,
-- wavecuepoint/wavecuepoint.c, which adds cue points to a wave file, hexdump/hexdump.h, and
-- tailf/tailf.c.
--
-- Parts and files. Base and Machine hold what the rest shares: tests, lists, 64-bit arithmetic
-- (Machine/Word) and memcpy (Machine/Memory). Rb is the ring buffer:
--   Rb/State    rb_t as a record, the validity invariant, rb_reset and rb_reset_stats
--   Rb/Space    rb_can_read and rb_can_write; the readable bytes as a list (`contents`)
--   Rb/Copy     rb_generic_read, rb_read, rb_overread, rb_write, rb_peek_at, rb_peek and the versions
--               for one byte; the proofs are in Copy/Rounds (copies round the end), Copy/Read,
--               Copy/Write, Copy/Peek and Copy/Split
--   Rb/Advance  rb_generic_advance_read_index, rb_advance_write_index, rb_drop and the skips
--   Rb/Region   rb_get_read_regions, rb_get_write_regions and the rb_get_next_* pair
--   Rb/Search   rb_find_byte and rb_find_byte_sequence
--   Rb/Queue    the specification, a bounded queue; Rb/Client runs calls against it
--   Rb/Create   rb_set_common_init_values, rb_new_audio on the heap, rb_new and rb_new_named
--   Rb/Audio    rb_frame_to_byte_count, rb_byte_to_frame_count, rb_deinterleave_items and
--               rb_deinterleave_audio
--   Rb/Shared   rb_new_shared_audio, rb_open_shared, rb_free, rb_mlock and rb_munlock by their system
--               calls; Shared/Calls has the answers, and what is held behind a list of calls;
--               Shared/New, Shared/Open and Shared/Free what each function leaves
--   Rb/Exclusive rb_try_exclusive_read, rb_release_read and the pair for writing, over the mutex of
--               pthread (Pthread); Exclusive/Holders, processes that take turns
--   Rb/Threads  a reader and a writer whose stores interleave; Threads/Bytes has them byte by byte,
--               Threads/Window, Threads/Reader, Threads/Writer and Threads/Fifo the order of the bytes
--   Rb/Float    rb/rb_float.h;  Rb/Midi  rb/rb_midi.h
-- Vector is vector/vector.c: the struct and its functions, with malloc and realloc as a record of
-- functions and their laws (Allocator); Vector/Grow has the resizing and vector_add, Vector/Shift the
-- loops, Vector/Edit the other functions. Machine/Array has its loads and stores, Machine/Int the
-- int. The parts do not call each other.
-- Wave is wavecuepoint/wavecuepoint.c: Wave/Endian the conversions, Wave/Markers the loops over the
-- marker file, Wave/Chunks the loop over the chunks of the wave file, Wave/Output the cue points, the
-- copying and addMarkersToWaveFile (add_markers); Wave/Program puts them together and Wave/Ends
-- has its end; Output/Marks spells the bytes of a cue chunk. Its files are those of Machine/Stdio,
-- and Machine/Run has the ways it can end.
-- Hexdump is hexdump/hexdump.h, the text that hexdump prints: Hexdump/Buff its buffer and the padding,
-- Hexdump/Rows the dump as rows.
-- Tailf is tailf/tailf.c: a round of its loop; Tailf/LastLine what the round prints.
-- A function rb_f of the source is the definition f. A function that the source builds from another
-- calls it here too.
--
-- State and results. A function takes the `rb_t` and returns it changed, with the count returned and
-- the caller's destination. The result is an `Option`: `none` is a copy or a load that leaves its
-- array, a division by 0, or fuel that ran out. The results of rb_deinterleave_items and of
-- wavecuepoint.c keep the two apart (Machine/Run). A byte is a number, a bool of the struct a Bool, and
-- the storage behind the struct the member `buf`. A `uint64_t` is a number, and every sum or
-- difference of the source is taken mod 2^64. IsValid bounds the size by 2^63, as no C object is
-- larger. The int of rb_find_byte is a Bool; an index stands for a pointer into the buffer.
--
-- Loops. A search takes one round more of fuel than there are readable bytes: each round looks one
-- byte further on, and the round behind the last byte ends the loop; the loop of
-- rb_deinterleave_items takes one more than there are items. The loops of vector/vector.c take
-- the number of their rounds, which is fixed before the first. The loops of wavecuepoint.c over a file
-- take more fuel than the file has bytes, as each round takes one or more of them, and the copy of a
-- chunk more than its size. What ends at the exit of addMarkersToWaveFile is `failed`; what runs out of
-- fuel is `spinning`.
--
-- Not modelled: the frame counts that go through double, the debug output, the demonstration
-- programs, and the collection's other snippets, which are copies of other projects (rb/archive,
-- hash, com) and programs that are mostly I/O. Of wavecuepoint.c the messages, the closing of
-- files and main are left out, of tailf.c main and the message of a truncated file.
pub mod Base
pub mod Hexdump
pub mod Machine
pub mod Rb
pub mod Tailf
pub mod Vector
pub mod Wave
