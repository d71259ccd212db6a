-- ===== src/Json.antt =====
-- commands/json and messages/json: the classes that read the messages of a device, and the commands
-- whose arguments depend on what was read.
pub mod Conclude
pub mod Status
pub mod Station
pub mod Readings
pub mod Errors
pub mod Water
pub mod CleanCommands
pub mod SetCommands
pub mod RoundTrips
pub mod Docking
pub mod Charging
pub mod WorkEvents
pub mod Resume
pub mod MapTrace
pub mod Paging
pub mod MapSets
pub mod MapCached
pub mod MajorMap
