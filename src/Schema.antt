-- ===== src/Schema.antt =====
-- langs/typescript/src/schema-compiler: the compiler of the schema IR.
pub mod Json
pub mod Snapshot
pub mod Log
pub mod Shape
pub mod Ir
pub mod Doc
pub mod Names
pub mod Relations
pub mod Collisions
pub mod Validate
pub mod Emit
pub mod Postgres
pub mod Compile
