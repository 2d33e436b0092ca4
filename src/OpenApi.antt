-- ===== src/OpenApi.antt =====
-- openapi/: the OpenAPI document of the routes of an application.
mod Tests
pub mod Schema
pub mod Build
pub mod Paths
pub mod Generator
pub mod Document
pub mod Endpoints
