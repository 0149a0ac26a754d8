-- ===== src/Handlers.antt =====
-- pkg/handlers: the handler of files (files/handler.go), and of root.go the routes and the level at
-- which a served request is logged.
pub mod Files
pub mod Engine
use peerd_oci.Prelude.{Bytes, ℕ, if◌then◌else◌, Bool, leb, bytes_eq, ◌&&◌, codes, ltb, ◌||◌}

pub data LogLevel : Type 0 where
  info warn error : LogLevel

-- The level of the message "request served".
unfoldable pub level_of : ℕ → LogLevel
level_of status =
    if leb 400 status && ltb status 500 then warn else if leb 500 status then error else info

-- `registerRoutes`: the methods that reach the handler, under "/blobs/*url".
unfoldable pub routed : Bytes → Bool
routed method = bytes_eq method (codes "HEAD") || bytes_eq method (codes "GET")
