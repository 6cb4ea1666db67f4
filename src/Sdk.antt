-- ===== src/Sdk.antt =====
-- What the modules use of the Cosmos SDK: the collections of cosmossdk.io/collections, the raw
-- transient store, the context of a message and the event manager. None of it is code of this
-- repository, so it is taken as interfaces with the documented laws; `Sdk.Memory` shows that the
-- laws can be met.
pub mod Store
pub mod Walk
pub mod Context
pub mod Laws
pub mod Memory
pub mod Paging
pub mod OnePage
pub mod PutAll
