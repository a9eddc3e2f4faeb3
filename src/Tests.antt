-- ===== src/Tests.antt =====
-- Runs of the definitions at concrete inputs, and each theorem at an input that meets its hypotheses.
mod RunnerTests
mod NotifyTests
mod StoreTests
mod SettingsTests
mod ApiTests
mod VmpushTests
mod SchedulerTests
mod AuthTests
mod HubTests
