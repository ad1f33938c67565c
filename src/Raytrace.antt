-- ===== src/Raytrace.antt =====
-- src/splash2/codes/apps/raytrace: the parts of the ray tracer that manage shared memory and work.
pub mod Heap
pub mod Realloc
pub mod WorkPool
pub mod RayStack
pub mod Objects
mod Tests
