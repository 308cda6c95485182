-- ===== src/Billing.antt =====
-- backend/src/billing: the plan that an organization pays for, the checkout that starts a subscription,
-- and the webhooks by which Stripe reports what becomes of it.
mod Model
pub mod Entitlements
pub mod Reservations
pub mod Checkout
pub mod Subscriptions
pub mod Webhooks
mod Tests
pub use Model.*
