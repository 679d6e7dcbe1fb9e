-- ===== src/Tests.antt =====
-- The theorems at concrete inputs, and runs of the definitions.
mod Tables
mod Operators
mod Heaps
mod Hierarchies
mod Programs
mod Arrays
mod Values
mod Strings
mod Streams
mod Lexemes
