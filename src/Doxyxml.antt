-- ===== src/Doxyxml.antt =====
-- gr-Aegir/docs/doxygen/doxyxml: the interface to doxygen's XML output.
pub mod Dom
pub mod Quote
pub mod Index
pub mod Base
pub mod Compound
pub mod Description
pub mod DoxyIndex
mod Tests
