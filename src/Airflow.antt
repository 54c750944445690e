-- ===== src/Airflow.antt =====
-- apps/backend/app/services/airflow: the client of Airflow's REST API and the service over it.
pub mod Http
pub mod Auth
pub mod Client
pub mod Endpoints
pub mod Payload
pub mod Service
