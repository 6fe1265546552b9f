-- ===== src/Output.antt =====
-- projects/cs2-dumper-cpp-standalone/src/output.cpp: the files that the dumper writes. Output/Text has
-- the texts that stand inside them, Output/Formatter the class of that name, Output/Json and
-- Output/Header the two kinds of files, and Output/Files which files are written.
pub mod Text
pub mod Formatter
pub mod Json
pub mod Header
pub mod Files
