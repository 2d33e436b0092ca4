-- ===== src/Jobs.antt =====
-- jobs/: queues of messages, their workers, and recurring tasks.
pub mod Message
pub mod Queue
pub mod Redis
pub mod Kafka
pub mod Cron
pub mod Sql
mod Tests
