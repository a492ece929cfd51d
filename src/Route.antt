-- ===== src/Route.antt =====
-- pkg/controller/route and pkg/model: the route controller. `State` has what it keeps and calls,
-- `Nodes`, `Cidr`, `Calls`, `Condition` and `Reconcile` its functions, the other children the laws.
pub mod State
pub mod Nodes
pub mod Cidr
pub mod Calls
pub mod Condition
pub mod Reconcile
pub mod Creation
pub mod Deletion
pub mod Resync
pub mod Cache
pub mod Answers
pub mod Marking
pub mod Selection
pub mod Conflicts
pub mod Filter
pub mod Table
pub mod Upkeep
pub mod Converge
pub mod Reach
pub mod Rounds
pub mod Life
mod Tests
