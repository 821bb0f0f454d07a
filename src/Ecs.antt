-- ===== src/Ecs.antt =====
-- include/mzx/ecs.h and src/ecs.cpp: entities with components, and the systems that are updated
-- together.
pub mod Systems
pub mod Entities
