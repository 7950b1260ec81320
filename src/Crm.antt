-- ===== src/Crm.antt =====
-- The class runtime manager (control-plane/oprc-crm).
pub mod Names
pub mod Fsm
