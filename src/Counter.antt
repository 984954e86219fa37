-- ===== src/Counter.antt =====
-- cs537/P1: MADCounter, which counts characters, words and lines of a file.
pub mod Input
pub mod Chars
pub mod Words
pub mod Longest
pub mod Arguments
mod Tests
