-- ===== src/Helpers.antt =====
-- What the program's parts share: Python values and the narrowing functions of helpers/common.py.
pub mod Floating
pub mod Result
pub mod Text
pub mod Json
pub mod Timestamp
