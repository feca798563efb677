-- ===== src/Conditions.antt =====
-- pkg/util/conditions: reading, writing, merging and patching the conditions of an object.
pub mod Getter
pub mod Setter
pub mod Distinct
pub mod Groups
pub mod Merge
pub mod Summary
pub mod Patch
