-- ===== src/Doxypy.antt =====
-- gr-Aegir/docs/doxygen/other/doxypy.py: the input filter that moves Python docstrings into
-- Doxygen comment blocks. The patterns, the state machine, and the filter are the children.
pub mod Patterns
pub mod Machine
pub mod Filter
mod Table
pub mod Total
mod Weave
pub mod Conserve
pub mod Stream
pub mod Docstring
mod Tests
