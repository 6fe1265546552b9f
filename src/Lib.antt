-- ===== src/Lib.antt =====
-- Research tools for the analysis of game processes: a verification library.
--
-- Paths are from the repository's root; `dumper` stands for projects/cs2-dumper-cpp-standalone
-- and `stage3` for projects/cs2-stage3-esp-radar/external-cheat-base/src.
--
-- Parts and files.
--   Base: shared names, tests on numbers, lists, bytes and little-endian words.
--   Pe: dumper/src/pe.cpp, the class `PeImage`. `pe_image` is the constructor, whose early returns
--     leave `valid` false; `export_rva` is the look-up of a name.
--   Pattern: dumper/src/pattern.cpp, the class `Parser` and the constructor of `Pattern`.
--   Scanner: dumper/src/pattern.cpp, `first_literal`, `execute` and `find_unique_code`, which scans
--     the range of code that Pe has found.
--   Config: dumper/src/runtime_config.cpp. Config/Text has the helpers on text, Config the classes
--     `SignatureDatabase` and `LayoutConfig`, Config/Defaults their built-in values. The patterns of
--     the candidates are what Pattern reads. A file is its bytes, or nothing if it does not open.
--   Process: dumper/include/cs2dumper/memory.hpp. `Process` is the class `IProcessMemory`, with a
--     state of its own; `M` is a call that changes that state and returns or throws.
--   The parts of dumper/src/analysis.cpp, all of which read a Process:
--     Interfaces: from `decode_factory_target` to `find_interface_instance`, and
--       `analyze_interfaces`. They read images with Pe.
--     Signatures: `ModuleView`, `load_module` and `resolve_signature`, which asks Config for the
--       candidates, Pattern for their operations and Scanner for the only match.
--     Buttons, Offsets: `analyze_buttons`; `analyze_offsets` and `validate_runtime_offsets`.
--     Schemas: `hash_elements` (Schemas/Blocks), `read_class_binding` and `read_enum_binding`
--       (Schemas/Bindings), and from `probe_schema_system` to `analyze_schemas` (Schemas/Scopes).
--     Analysis: `analyze_all`, which runs the four analyses.
--   Output: dumper/src/output.cpp. Output/Text has the functions on texts, Output/Formatter the class
--     `Formatter`, Output/Json and Output/Header the files, and Output/Files the class `Output`, with
--     the files that were written as a list. It writes what Analysis gives.
--   Arguments: dumper/src/main.cpp, `parse_args`, `split_types` and `discover_config`.
--   PlayerSample: stage3/core/game/radar_player_sample.hpp. `retain_player_sample` is
--     `retainPlayerSample`, in the parts `rebind`, `freeze` and `refresh`; the arguments of a call
--     are an `Observation`, and a history of calls is a list of them.
--   FixedMap: stage3/core/game/fixed_map_radar.hpp, `selectReferenceZ`, `selectLevel` and
--     `selectLevelWithHysteresis`. A player and a snapshot have the fields that these read.
--   WeaponNames: stage3/utils/weapon_names.hpp, the table of names and `getWeaponName`.
--   ProcessMemory: stage3/core/memory/memory.hpp and memory.cpp. `Memory` has the global handles, the
--     process, the switch for writes, the counters and the calls of Windows so far; what Windows
--     answers is a function of those calls. `run` applies operations in any order. `record_read`
--     and `reset_read_metrics` are whole calls of RecordRead and ResetReadMetrics, with one accumulator
--     for each thread; ProcessMemory/Threads has their atomic accesses one by one, as a step relation
--     on the counters and the phases of the threads, with all accesses in one order.
--   Histogram: stage3/core/performance_metrics.hpp, the class `DurationHistogram`. `record_duration`
--     is `record` in one thread, from its count of microseconds on; Histogram/Threads has the atomic accesses of `record` one by one, as
--     a step relation on the histogram and the calls under way. The accesses are relaxed, and each
--     location alone has one order; the relation interleaves them all in one order.
--
-- Bytes are numbers below 256, texts are lists of bytes, and words keep their wrap-around as `%`.
-- A `size_t` is a number: offsets of 32 bits are summed in 64, which cannot wrap.
-- Fuel: the pattern parser takes one unit a round and reads a character in each, so the length of
-- the text and one more is enough; `stuck` stands for running out of it, and is no outcome of the
-- source. The loop of `hash_elements` over the free blocks takes fuel too, and `none` says that it is
-- still running: no fuel is enough for every process, since a block without data can name itself.
-- The other loops over a process have a bound of their own in the source, and recur on it.
-- Addresses are summed modulo 2 ^ 64. An integer with a sign that is read from a process is kept as
-- its bits, and compared as the source does. A read gives as many bytes as it was asked for.
-- An exception is an error value of the method, with the object as the method leaves it. A
-- `std::map` is a list of pairs in the order of its keys (Base/Maps).
--
-- Not modelled: floating-point numbers are a parameter (PlayerSample, FixedMap) or left out (the
-- conversion of microseconds to milliseconds), Windows is a parameter (ProcessMemory), and so are
-- the process (Process), the clock and the opening of files (Output). The warnings that the
-- analysis writes to cerr, and the creation of the directory for the output, are left out, and so
-- is `main` of the dumper. Its backend for Windows, the features, the menu, the local radar and the
-- renderer of stage3, projects/pwnie-island-research, the relay in Go, the page in TypeScript and
-- the copies of other projects' libraries are outside.
pub mod Base
pub mod Pe
pub mod Pattern
pub mod Scanner
pub mod PlayerSample
pub mod Histogram
pub mod Config
pub mod ProcessMemory
pub mod FixedMap
pub mod WeaponNames
pub mod Process
pub mod Interfaces
pub mod Signatures
pub mod Buttons
pub mod Offsets
pub mod Schemas
pub mod Analysis
pub mod Output
pub mod Arguments
