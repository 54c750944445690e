-- ===== src/Tests.antt =====
-- The theorems at concrete inputs.
mod Backend
mod Airflow
mod Graph
mod Kpi
mod Autofill
mod Pipeline
mod Modeling
mod Imputing
mod Spine
