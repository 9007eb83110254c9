-- ===== src/Tinycoin/Handle.antt =====
-- handle_block as a whole: it ends without a fault and keeps the invariant.
mod Cases
mod Descent
pub use Cases.{Done}
pub use Descent.{handle_block-Done}
