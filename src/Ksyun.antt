-- ===== src/Ksyun.antt =====
-- The clients of the cloud's services (pkg/ksyun/openstack_client), and package ksyun, which the
-- controller calls.
pub mod Types
pub mod Shapes
pub mod Vpc
pub mod Sending
pub mod Alarms
pub mod Serving
pub mod Entries
pub mod Methods
pub mod Cloud
pub mod Composed
pub mod Call
pub mod Neutron
pub mod Nova
pub mod Settings
pub mod Routes
pub mod Waiting
pub mod Tokens
pub mod Listing
pub mod Tests
