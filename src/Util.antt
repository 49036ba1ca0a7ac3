-- ===== src/Util.antt =====
-- util/.
pub mod Atomic
pub mod Lcm
pub mod Combinations
