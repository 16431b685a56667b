-- ===== src/BodyStore.antt =====
-- internal/core/bodystore: the replay store of request bodies and the admission to its memory.
pub mod Admission
pub mod Store
mod Tests
