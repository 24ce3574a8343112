-- ===== src/Kube.antt =====
-- The Kubernetes side: object types, the calls on the API server, programs of calls and how they run.
mod Objects
mod Custom
mod Api
mod Serving
mod Rules
mod Effects
mod Calls
mod Keeping
mod Allowed
mod Idioms
mod Equality
pub mod Memory
unfoldable pub use Objects.*
unfoldable pub use Custom.*
unfoldable pub use Api.*
unfoldable pub use Serving.*
pub use Rules.*
pub use Keeping.*
pub use Allowed.*
pub use Effects.*
unfoldable pub use Calls.*
unfoldable pub use Idioms.*
pub use Idioms.Specs.*
unfoldable pub use Idioms.Chains.*
unfoldable pub use Idioms.Stable.*
unfoldable pub use Idioms.Creations.*
unfoldable pub use Equality.*
