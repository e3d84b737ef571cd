-- ===== src/Classifiers.antt =====
-- src/model: the open enums of the answers, which keep a text that they do not know.
pub mod Wifi
pub mod Addresses
pub mod Hotspot
pub mod Storage
pub mod Connectivity
pub mod Routing
pub mod Firmware
pub mod Modes
pub mod Radio
pub mod Texts
