-- ===== src/Tests.antt =====
-- Small runs of the definitions, and the theorems at concrete inputs.
mod Compared
mod Checks
mod Texts
mod Tables
mod Files
mod Lookup
mod Records
mod Trees
mod Updates
mod Stacks
mod Arrays
