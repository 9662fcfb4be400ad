-- ===== src/Calendar.antt =====
-- The calendar queue of multi_thread/src/calqueue.c and calqueue.h.
pub mod State
pub mod Insert
pub mod Dequeue
pub mod Resize
pub mod Operations
pub mod Gather
pub mod Shape
pub mod Taking
pub mod Searching
pub mod Width
pub mod Rebuilding
pub mod Bag
pub mod Refinement
pub mod Order
pub mod Stable
pub mod Lowest
pub mod Sequence
mod Tests
