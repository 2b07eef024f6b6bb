-- ===== src/Fsm.antt =====
-- 02-ownership-types-traits: two state machines and the observers of one.
pub mod Door
pub mod TrafficLight
mod Tests
