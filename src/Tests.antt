-- ===== src/Tests.antt =====
-- Runs of the modelled code on small inputs.
mod Fixtures
mod Auth
mod Posts
mod Users
mod Events
mod Middleware
mod Feed
mod Redis
mod Feeds
mod WorkPool
mod Routes
mod Startup
mod Handles
mod Followers
mod Mirror
mod Documents
