-- ===== src/Basic.antt =====
-- pkg/basic: the data structures.
pub mod RingQueue
pub mod Chain
pub mod LinkedHashMap
pub mod LinkedList
pub mod DelayQueue
pub mod PriorityQueue
