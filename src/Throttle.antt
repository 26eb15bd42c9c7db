-- ===== src/Throttle.antt =====
-- internal/throttle: detecting throttling and adapting to it.
pub mod State
pub mod Adaptive
pub mod Detector
pub mod Rotator
pub mod Canary
