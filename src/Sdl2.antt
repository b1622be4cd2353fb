-- ===== src/Sdl2.antt =====
-- The programs in sdl2/.
pub mod Snake
