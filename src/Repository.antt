-- ===== src/Repository.antt =====
-- internal/repository: the statements and transactions on the tables.
pub mod Statements
pub mod Reserve
pub mod Purchase
pub mod Release
pub mod Refines
pub mod Reaches
pub mod Contract
pub mod Succeeds
pub mod Users
pub mod Venues
pub mod SeatNumber
pub mod Seats
pub mod Events
pub mod UserBookings
pub mod Singles
