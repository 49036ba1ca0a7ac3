-- ===== src/Conf.antt =====
-- conf/: the settings that a metric is matched with.
pub mod Rules
pub mod Retention
pub mod Schemas
