-- ===== src/Evaluation.antt =====
-- apps/control-plane/src/modules/evaluation/evaluation.controller.ts: batches of an evaluation, their
-- results and the figures that sum them up.
--
-- Rates and averages are kept as fractions, before a double rounds them. Costs and scores of the judge are of
-- a type of doubles, whose addition is a parameter.
pub mod Summary
pub mod Batches
pub mod Tallies
pub mod Laws
pub mod Exact
mod Tests
