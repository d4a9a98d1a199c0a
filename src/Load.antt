-- ===== src/Load.antt =====
-- _load_convert.py: the translation of a GRIB2 message into the metadata of a cube, at the
-- module's default options, with which it issues no warning.
pub mod Scaling
pub mod Vertical
pub mod Time
pub mod Statistics
pub mod Phenomenon
pub mod Product
pub mod Flags
pub mod Convert
pub mod Ellipsoid
pub mod Grid
pub mod Grib1
