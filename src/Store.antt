-- ===== src/Store.antt =====
-- internal/flows/impl_loop/store/state.go: the append-only journal of a run and its projection.
pub mod Answer
pub mod Codec
pub mod References
pub mod Journal
pub mod Projection
pub mod Recording
pub mod Attempts
