-- ===== src/Prac.antt =====
-- The small programs in prac/: the calculator and the text query.
pub mod Calculator
pub mod TextQuery
pub mod Server
