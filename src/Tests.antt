-- ===== src/Tests.antt =====
-- Runs of the model on concrete inputs, and each theorem with hypotheses at an input that meets them.
mod Gate
mod Gateway
mod Monitor
mod Ussd
mod Esim
mod Sms
mod Table
mod Settings
mod Guards
mod Switch
mod Console
mod Pages
mod Entrance
