-- ===== src/Examples.antt =====
-- Concrete inputs: a use of each result at values where its conditions hold.
mod Supplies
mod Rewards
mod Remote
mod Formats
mod Daemon
mod Gateways
mod Pools
mod Pages
mod Snapshots
mod Observers
mod Forms
mod FrontPage
