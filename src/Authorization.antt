-- ===== src/Authorization.antt =====
-- src/modules/authorization: who may do what. The role map, the policies over attributes, the stored
-- relations and the composed decision stand in the children, then the proofs about them.
pub mod Rbac
pub mod Policies
pub mod Relations
pub mod Decision
pub mod Readable
pub mod Related
pub mod Rules
pub mod Table
pub mod Order
mod Tests
pub mod Settles
