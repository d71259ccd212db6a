-- ===== src/Map.antt =====
-- map.py: the data of the map and its handlers. The module is named after the class `Map`.
pub mod Data
pub mod Handlers
pub mod Wiring
pub mod Current
pub mod Image
