-- ===== src/Convert.antt =====
-- `converter_single` of constexpr_fmt.h and what calls it, up to the macro `CFMT_STR`. The children
-- `Args` to `Format` hold the code; the others hold its theorems.
pub mod Args
pub mod Text
pub mod Integer
pub mod Float
pub mod Numbers
pub mod Unsigned
pub mod Emit
pub mod Format
pub mod Appends
pub mod Layout
pub mod Width
pub mod Render
pub mod Refine
pub mod Contract
