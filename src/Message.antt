-- ===== src/Message.antt =====
-- message.py: the wrapper of a single GRIB message.
pub mod Section
pub mod Grouping
pub mod Data
