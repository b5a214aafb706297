-- ===== src/Tile.antt =====
-- pkg/tile_request.go. float64 and package math are a parameter, a record of operations with the few
-- laws that a theorem needs; a float64 constant is given by its decimal digits.
pub mod Floats
pub mod Bounds
pub mod Range
pub mod Zoom
pub mod Confine
pub mod Find
pub mod Tests
