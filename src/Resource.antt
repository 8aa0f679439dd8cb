-- ===== src/Resource.antt =====
-- The lists of resources: frontend/src/components/resource, the service that reads them and the store
-- that keeps them.
pub mod Filter
pub mod Listing
pub mod Store
