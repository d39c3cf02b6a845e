-- ===== src/Storage.antt =====
-- internal/storage: implementations of the interfaces in internal/user/user.go.
pub mod Memory
pub mod Mysql
pub mod Redis
pub mod Elastic
