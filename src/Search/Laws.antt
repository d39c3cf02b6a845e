-- ===== src/Search/Laws.antt =====
-- On the two controllers of internal/user/search, with the sanitiser that the program gives them.
pub mod Http
pub mod Grpc
