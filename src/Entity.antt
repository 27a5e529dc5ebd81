-- ===== src/Entity.antt =====
-- internal/domain/entity: the values, the notification and the template. A `uuid.UUID` is a number,
-- uuid.Nil is 0; a `time.Time` is a number of nanoseconds; a `map[string]string` is a list of pairs.
pub mod Channels
pub mod Priorities
pub mod Statuses
mod Struct
pub mod Validation
pub use Channels.{Channel, sms, email, push}
pub use Priorities.{Priority, high, normal, low}
pub use Statuses.{Status, pending, queued, processing, delivered, failed, cancelled}
unfoldable pub use Struct.*
