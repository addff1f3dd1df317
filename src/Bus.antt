-- ===== src/Bus.antt =====
-- pkg/bus: the two queues between the channels and the agent.
pub mod Queue
pub mod Fifo
