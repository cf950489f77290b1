-- ===== src/Rt.antt =====
-- runtime/vader_rt.c: bounds checks, channels and maps.
pub mod Bounds
pub mod Chan
pub mod Map
mod Tests
