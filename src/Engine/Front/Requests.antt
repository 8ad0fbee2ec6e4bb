-- ===== src/Engine/Front/Requests.antt =====
-- What the entry points of src/engine/mod.rs send and answer.
use atomic_blob_store.Engine.Operation.{Operation}
