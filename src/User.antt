-- ===== src/User.antt =====
-- The library of the user programs, in user/ulib.c and user/printf.c.
pub mod Ulib
pub mod Printf
pub mod Number
pub mod Text
mod Tests
