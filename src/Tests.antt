-- ===== src/Tests.antt =====
-- Concrete runs, one for each theorem that has hypotheses.
mod Types
mod Send
mod Message
mod Serve
mod Calls
mod Beats
mod Answers
mod Transfer
mod Wiring
mod Machine
mod Drive
mod Images
mod Formats
mod Scenario
