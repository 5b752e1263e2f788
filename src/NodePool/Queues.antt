-- ===== src/NodePool/Queues.antt =====
-- Several lists of the pools used as queues, told apart by numbers: ListAppend puts in, and
-- ListFirst with ListRemove takes out. The clients of the list library rest on these lemmas.
mod Put
mod Take
pub use Put.{put_lem}
pub use Take.{take_lem}
pub mod Hold
