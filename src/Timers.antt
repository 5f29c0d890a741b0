-- ===== src/Timers.antt =====
-- The screens' own timers: the kiosk's idle time, the countdown of a cooking step and the pause between
-- two bug reports. Time passes in the steps that each module names.
mod Idle
mod Countdown
mod Report
mod Tests
