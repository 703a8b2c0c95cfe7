-- ===== src/Start.antt =====
-- backend/src/main.py and backend/src/infrastructure/services.py: the application's start.
pub mod Container
pub mod Resolved
pub mod Infrastructure
pub mod Lifespan
