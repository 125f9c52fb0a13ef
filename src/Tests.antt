-- ===== src/Tests.antt =====
-- Concrete inputs for the theorems.
mod Frames
mod Exchanges
mod Messages
mod Copies
mod Utils
mod Access
mod Conf
mod Commands
mod Calibration
