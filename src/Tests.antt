-- ===== src/Tests.antt =====
-- Runs of the model on concrete inputs.
mod Configuration
mod Programs
mod Browser
mod Bundler
mod Rows
mod Database
mod Server
mod Requests
mod Calendars
mod Copies
