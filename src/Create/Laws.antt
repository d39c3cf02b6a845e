-- ===== src/Create/Laws.antt =====
-- On internal/user/create: the interactor, the input, and the two controllers.
pub mod Interactor
pub mod Input
pub mod Http
pub mod Grpc
