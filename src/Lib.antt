-- ===== src/Lib.antt =====
-- Gwion: a strongly timed musical programming language, its compiler and its virtual machine.
--
-- Source code is parsed (the ast submodule), checked (src/parse), turned into bytecode (src/emit) and
-- run by a virtual machine (src/vm). The virtual machine runs lightweight threads, the shreds. The
-- shreduler keeps the shreds that wait in a queue ordered by wake-up time; the driver advances the
-- clock and asks the shreduler for the next shred that is due; a shred that advances time, waits or
-- ends calls back into the shreduler. The submodules util, ast and fmt are not part of the repository:
-- what the code uses of them is a parameter here.
--
-- Files:
--   Prelude     tests, lists and lemmas on native numbers that the other modules share.
--   Float       m_float, the host's floating-point type, as an interface: what the code calls and the
--               laws of its comparisons; a fixed-point instance shows that the laws can hold.
--   Vector      Vector of the util submodule as an interface, with lists as an instance.
--   Shreduler   src/vm/shreduler.c with struct ShredTick_ of include/vm.h and struct Shreduler_ of
--               include/shreduler_private.h. The heap of ticks is a map from addresses to ticks; 0 is
--               the null pointer. Each function of the source is a function of the same name on the
--               state; the walk of _shredule is last_due, its two ways to link are link_front and
--               link_after, the unlinking of tk_remove is unlink. Erase holds the recursive
--               erasure, whose calls into other files (unwinding and release) are arguments.
--               Chain, Order and Queue say what a well-formed queue is; Insert, Get, Remove,
--               Detach, Bury and Add are about the operations.
--   Escape      src/emit/escape.c. The buffer is a list of bytes that is read at one position and
--               written behind it; a round of the loop is round, the two numeric forms are octal_at and
--               hex_at. Pieces describes well-formed literals; Decode and Ends hold the proofs.
--   DidYouMean  src/parse/did_you_mean.c. The table of wagner_fisher is a function of two indices.
--               Distance is the independent edit distance, Cells the loops, Resembles and Suggest the
--               results.
--   Word        m_int and m_uint as 64-bit words, with the C operators on them.
--   Vm          src/vm/vm.c: the instructions of vm_prepare over integers, addresses, counters and
--               jumps, one clause of exec for each label, on a shred with its memory, its register
--               stack pointer, its memory stack pointer, its base and its program counter; run is the
--               dispatch loop. Machine is an abstract stack machine, whose operators Meaning
--               says in its own words; Stack and Represents say
--               how a shred represents one; Refine, Operators, Exec and Dispatch compare the two,
--               and Repeat is about counted loops.
--   Types       src/env/type.c: isa, find_common_anc and get_depth on a table of types.
--   Event       src/lib/event.c: EventWait, event_signal and broadcast on the vector of an event, on top
--               of Shreduler. Wake holds the proofs.
--   Memoize     src/emit/memoize.c: the ring of remembered calls; Ring holds the proofs.
--   FloatVm     src/vm/vm.c: the instructions on floats, alone or mixed with integers, over an interface
--               of float operations on words; its Machine continues the stack machine of Vm, and
--               Meaning says what the operators mean.
--   Calls       src/vm/vm.c: the instructions that call and return, on the frames of the memory stack,
--               and prepare_call of src/vm/gack.c. Frames reads the memory stack as a list, Places
--               says where a call or a return leads, and Sequence is about sequences of them.
--   Handle      src/vm/vm.c: clean_values, find_pc, find_handle, unwind and handle, on Calls and
--               Shreduler. Landing says where a walk down the list of frames
--               and its tries ends, Unwind compares with it, Caught adds the queue.
--   Dict        src/lib/dict.c: the dictionary, its instructions and the loops the emitter makes of
--               them, over the hash and the operator ?= of the keys. Literal has the literals and the
--               release; Probe, Set, Kept, Ends and Grow hold the proofs.
--   Ugen        src/lib/ugen.c: unit generators, their connections and the computation of a sample, with
--               compute_audio of src/vm/vm.c. Instructions has the instructions and methods, Compute the
--               computation; Wiring, Connect and Restore are about connections, Ends, Total and Sample about
--               the end of a computation. Its fuel bounds the UGens that wait for one another.
--   Bytecode    src/vm/vm_code.c: tobytecode. Noops has its parts on single instructions; Merge, Round,
--               Taken, Passed and First are about what the first loop leaves out, Compact about the
--               second one;
--               Run and Refine compare runs of instructions and of bytecode, over what an instruction
--               does. Stored, Rewrite, Chain and Loop cut the code into the blocks that the first loop
--               rewrites, Blocks and Simulate run them before and after, and Original joins both loops;
--               Registers is a small machine. Its fuel is the number of instructions.
--   Array       src/lib/array.c, over an interface of the element vector of the util submodule. Spec has
--               the functions on lists; Loops, Elements, Methods and Build are about the methods that
--               call a function for each element, Slice and Bounds about slices, Concat about
--               concatenation, and Contract joins them; Cells is an implementation of the interface.
--   Strings     src/lib/string.c: the methods that make a string in a buffer. Copies is about filling a
--               buffer, Parts about parts of strings; Edit, Spaces, Trim, Undo and Case hold the proofs.
--   Passes      src/pass.c: compilation passes by name, over an interface of the maps of the util
--               submodule; Choose holds the proofs. Its fuel bounds the calls of pass_set.
--
-- Bounds and fuel: the walk of _shredule takes fuel, and any fuel above the length of the queue is
-- enough; the erasure takes the depth of the tree of children; the escape loop takes the length of
-- the buffer and one round more; run takes the number of instructions; a walk over the
-- parents of a type takes fuel for all of them; unwind takes fuel above the number of frames; the walk
-- that places a key in a dictionary takes two rounds of its buckets, of twice as many when it grows; computing a sample takes twice
-- the number of unit generators; a method of an array takes a round for each element, and a slice one
-- round more. An address of the heap and a byte of a buffer are numbers; the
-- marker of an erased tick is the pointer -1, the greatest 64-bit word.
--
-- Not modelled: the mutex of the shreduler (each function is one atomic step), allocation and release
-- of memory, the texts of error messages, the audio drivers, and all code over the tree of the ast
-- submodule: the scanner, the checker, the emitter and the importer. Of the virtual machine, the
-- instructions on blocks of words, on objects, forks and unions are not modelled. Unrolled loops are
-- outside the theorems on the bytecode. Of arrays, the frames that a method lays on the stacks of the
-- shred, folds into an accumulator of another size than an element's, literals and reference counts are
-- left out, and of strings the searches, files and numbers. Of
-- dictionaries and unit generators, reference counts, the checks of types and the plug-ins' own code
-- are left out.
pub mod Prelude
pub mod Float
pub mod Vector
pub mod Shreduler
pub mod Escape
pub mod DidYouMean
pub mod Event
pub mod Word
pub mod Vm
pub mod Types
pub mod Memoize
pub mod FloatVm
pub mod Calls
pub mod Handle
pub mod Dict
pub mod Ugen
pub mod Bytecode
pub mod Array
pub mod Strings
pub mod Passes
