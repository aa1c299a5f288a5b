-- ===== src/QueueModel.antt =====
-- python/src/itchlab_research/simulation/queue_model.py: the visible book and the quantities
-- ahead of simulated orders, in the children, and the fill that accounting takes.
pub mod Book
pub mod Index
pub mod Removal
pub mod Tracker
pub mod Activation
pub mod Method
pub mod Model
pub mod Handlers
pub mod Execution
pub mod Crossing
pub mod Process
pub mod Consistent
pub mod Invariant
pub mod Session
pub mod Front
pub mod Prices
mod Tests
use itch_lab.Base.{ℕ}

pub record QueueFill : Type 0 where
  pub simulated_order_id : ℕ
  pub market_message_index : ℕ
  pub timestamp_ns : ℕ
  pub match_number : ℕ
  pub price4 : ℕ
  pub quantity : ℕ
  pub queue_ahead_before : ℕ
  pub queue_ahead_after : ℕ
  pub remaining_quantity_after : ℕ
