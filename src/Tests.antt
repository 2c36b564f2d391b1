-- ===== src/Tests.antt =====
-- Runs of the model on small inputs, and instances of its theorems.
mod Machine
mod Instructions
mod Loading
mod Memory
mod Assembling
mod Symbols
mod Commands
mod Sources
mod Texts
mod Logging
mod Safety
