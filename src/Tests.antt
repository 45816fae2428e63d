-- ===== src/Tests.antt =====
-- Runs of the model on concrete files, and each theorem at a concrete input.
mod Readings
mod Network
mod Gauges
mod Small
mod Program
mod Rounds
mod Failures
mod Kernel
mod Traces
mod Display
