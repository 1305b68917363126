-- ===== src/Client.antt =====
-- pkg/client: the clients, informers and listers of the custom resource.
pub mod Requests
pub mod Informers
pub mod Lister
pub mod Sets
pub mod Scheme
pub mod Source
pub mod Fake
