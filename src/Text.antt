-- ===== src/Text.antt =====
-- The functions of Go's packages `strings` and `strconv` that the program calls: `Split` by one
-- character, `TrimSpace`, `ParseInt` in base 10 for 64 bits, and the decimal print of a number. They
-- belong to the language's standard library. Texts are lists of code points.
pub mod Split
pub mod Trim
pub mod Decimal
