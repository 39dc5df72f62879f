-- ===== src/Tests.antt =====
-- Concrete runs of the models.
mod Frames
mod Books
mod Nodes
mod Migrations
mod Placements
mod Resolvers
mod Rounds
mod Versions
mod Sessions
mod Guards
mod Battles
mod Gates
