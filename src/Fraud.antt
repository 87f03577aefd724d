-- ===== src/Fraud.antt =====
-- fraud-detection: the scorer, the listener on the scoring queue, and the consumer loop.
pub mod Scorer
pub mod Listener
pub mod Consumer
