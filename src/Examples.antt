-- ===== src/Examples.antt =====
-- Small stores, and the theorems at them.
mod Fixture
mod Packages
mod Waitlist
mod Staff
mod Tables
mod Auth
mod Shell
mod Service
mod Surface
