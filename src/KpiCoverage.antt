-- ===== src/KpiCoverage.antt =====
-- apps/generator/genpm/preprocessing/logic/kpi_coverage.py: the choice of the KPIs that have the
-- most windows in common, over the boolean matrix of which KPI has a good window at which anchor.
pub mod Greedy
pub mod Selection
pub mod Windows
pub mod Imputability
pub mod Prefilter
pub mod Joint
pub mod Collect
pub mod Emit
pub mod Spine
