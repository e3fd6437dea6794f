-- ===== src/Works.antt =====
-- internal/works: the library as works. Items has the members, Neighbours the order that a work is
-- moved through, Cursor the position in the change feed.
pub mod Items
pub mod Place
pub mod Progress
pub mod Label
pub mod Continue
pub mod Feed
pub mod Artists
pub mod Samples
pub mod Work
pub mod Build
pub mod Neighbours
pub mod Cursor
mod Tests
