-- ===== src/Tests.antt =====
-- Concrete runs of the definitions, and the theorems at concrete inputs.
mod Boot
mod Commands
mod Driver
mod Whole
mod Validator
mod Text
mod Service
mod Device
