-- ===== src/Handler.antt =====
-- A changed file on its way through its handler: the delays between attempts
-- (internal/handlerretrystrategy), an attempt (internal/handlerattempt), and the task that makes the
-- attempts (internal/handlertask, with the log of internal/teelog).
pub mod Teelog
pub mod Retry
pub mod Attempt
pub mod Task
mod Tests
