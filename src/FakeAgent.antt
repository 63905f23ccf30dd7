-- ===== src/FakeAgent.antt =====
-- fake_agent: the agent of the end-to-end tests. It registers with the server, waits for a job that
-- it can run, runs it by a worker process, and deregisters.
pub mod Integers
pub mod Machine
pub mod Jobs
pub mod Client
pub mod Worker
pub mod Loop
