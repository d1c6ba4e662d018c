-- ===== src/Endpoints.antt =====
-- The endpoint storages (TransportInfra/Policies/EndpointStorage.hpp). A unique_ptr is an option:
-- `none` is the null pointer.
pub mod Single
pub mod Associative
pub mod Agreement
