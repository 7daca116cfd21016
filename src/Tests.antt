-- ===== src/Tests.antt =====
-- Theorems at concrete inputs.
mod StoreCases
mod GeometryCases
mod DbCases
mod ImportCases
mod RunCases
mod MainCases
