-- ===== src/Tests.antt =====
-- The theorems at concrete inputs, and tests of the definitions by evaluation.
mod StatusTests
mod CopyTests
mod DrawTests
mod LifeTests
mod ListTests
mod MenuTests
mod PollTests
mod RunTests
mod SelectionTests
mod SessionTests
mod SizeTests
mod TransferTests
mod WindowTests
