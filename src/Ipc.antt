-- ===== src/Ipc.antt =====
-- The three mediated calls of ipc/: same-layer, cross-layer and elevator.
pub mod State
pub mod SameLayer
pub mod CrossLayer
pub mod Elevator
pub mod Gate
pub mod Authority
