-- ===== src/Tests.antt =====
-- Concrete inputs: a platform that meets the documented behaviour, and each theorem that has
-- hypotheses at an input where they hold.
mod Toy
mod Auth
mod Files
mod Imports
mod Devices
mod Connector
mod Agreement
mod Users
