-- ===== src/Store.antt =====
-- internal/store: the transactions on the tables that hold a character's money, items and health.
pub mod Tables
pub mod Transaction
pub mod Economy
pub mod Progression
pub mod Vending
pub mod Ledger
pub mod Later
pub mod History
pub mod Charge
pub mod Runs
pub mod Examples
pub mod Effects
pub mod Dialogues
