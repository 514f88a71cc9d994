-- ===== src/Tests.antt =====
-- Runs of the code at concrete inputs, and each result's hypotheses met at one.
mod Server
mod Lifecycle
mod Samples
mod Jobs
mod Ordering
mod Webhook
mod Events
mod Pages
mod Subscriber
mod Pipeline
mod Api
