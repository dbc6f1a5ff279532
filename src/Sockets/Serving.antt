-- ===== src/Sockets/Serving.antt =====
-- socket/communication.c: what create_service and create_internal_service return.
use cjunk.Prelude.{ℕ, ◌≡◌, refl, List, ◌∷◌, ℤ}
use cjunk.Sockets.{
  Net, Sys, socket, inet, unix, stream, unlink, sun_path, create_service, create_internal_service,
}

-- Whatever setsockopt, bind and listen answer, and whether or not the buffers are set, both functions
-- return what socket answered: a caller cannot tell a service from one that has no address or does not
-- listen.
pub service_answers :
    (k : Net) (l : List Sys) (port : ℕ) (bufsize nodelay : ℤ) (addr : List ℕ)
    → ((create_service k port bufsize nodelay l).0 ≡ k.answer l (socket inet stream))
      × ((create_internal_service k addr l).0
          ≡ k.answer (unlink (sun_path addr) ∷ l) (socket unix stream))
unfolding create_service create_internal_service
service_answers k l port bufsize nodelay addr = (refl, refl)
