-- ===== src/Annotate.antt =====
-- The annotation program (cmd/annotation, pkg/annotation): it writes a node's instance id and zone,
-- which it reads from the metadata service, into the node's annotations.
pub mod Node
pub mod Ensure
mod Tests
