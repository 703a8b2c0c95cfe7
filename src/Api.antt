-- ===== src/Api.antt =====
-- backend/src/features/auth/auth_controller.py and auth_dto.py, backend/src/shared/requests and
-- backend/src/shared/middlewares/http.py: what stands between HTTP and the services.
pub mod Dto
pub mod Address
pub mod Exchange
pub mod Controller
pub mod Routes
pub mod Middlewares
