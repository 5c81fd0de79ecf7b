-- ===== src/Tests.antt =====
-- Runs of the modelled code of ui/ at concrete inputs.
mod Session
mod Requests
mod Pages
mod Certificates
mod Shell
mod Lists
mod Settings
mod Device
mod Chrome
mod Landing
mod Rewrites
mod Fleet
