-- ===== src/Conf.antt =====
-- The configuration file of a station (hpav_test/hpav_test/conf_file.c): changes of its fields,
-- calibration of its map of power backoffs, printing, and the transfers from and to a station.
pub mod Json
pub mod Fields
pub mod Print
pub mod Keys
pub mod Limits
pub mod Carriers
pub mod Pack
pub mod Compensation
pub mod Calibration
pub mod Entries
pub mod Kept
pub mod Saved
pub mod Modify
pub mod Command
pub mod Transfer
pub mod Words
