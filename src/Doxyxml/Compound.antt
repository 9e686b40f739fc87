-- ===== src/Doxyxml/Compound.antt =====
-- generated/compoundsuper.py and generated/compound.py: the objects of one file of doxygen, built from its
-- tree of nodes.
pub mod Classes
pub mod Object
pub mod Schema
pub mod Schemas
pub mod Build
mod Steps
pub mod Text
pub mod Read
pub mod Total
pub mod Find
pub mod Tests
