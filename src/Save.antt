-- ===== src/Save.antt =====
-- _save_rules.py: what is written to a message for a cube.
pub mod Coefficients
pub mod Shape
pub mod Codes
pub mod Cube
pub mod Surfaces
pub mod Times
pub mod Parameter
pub mod Product
pub mod Grid
pub mod Data
pub mod Projected
pub mod Sections
