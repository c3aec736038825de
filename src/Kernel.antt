-- ===== src/Kernel.antt =====
-- shared/kernel: currencies and money.
pub mod Currency
pub mod Money
