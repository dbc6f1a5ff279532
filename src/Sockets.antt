-- ===== src/Sockets.antt =====
-- socket/communication.c: the functions that make the two ends of a connection. They are sequences of
-- system calls. A function takes the calls made so far, latest first, and returns its result with the
-- calls made after it; a descriptor is the int that socket answers.
pub mod Connecting
pub mod Serving
mod Tests
use Prim.Native.String.{String}
use cjunk.Prelude.{
  ℕ, zero, suc, ◌+◌, ◌-◌, ◌*◌, ◌/◌, ◌%◌, ◌^◌, ltb, Bool, true, false, List, [], ◌∷◌, ℤ, pos, negsuc,
  if◌then◌else◌,
}
use cjunk.Prelude.Word.{u16, u32, set_bit}

pub data Family : Type 0 where
  inet unix : Family

pub data SocketKind : Type 0 where
  stream dgram : SocketKind

-- sockaddr_in, with sin_port and s_addr in network byte order, and sockaddr_un.
pub data Address : Type 0 where
  inet_at : ℕ → ℕ → Address
  unix_at : List ℕ → Address

-- The options of SOL_SOCKET. A timeout is in seconds.
pub data Opt : Type 0 where
  so_reuseaddr so_sndbuf so_rcvbuf so_rcvlowat so_rcvtimeo so_sndtimeo : Opt

-- The system calls of a program that uses communication.c, which itself never calls close.
pub data Sys : Type 0 where
  socket : Family → SocketKind → Sys
  connect bind : ℤ → Address → Sys
  listen : ℤ → ℕ → Sys
  setsockopt : ℤ → Opt → ℤ → Sys
  getsockopt : ℤ → Opt → Sys
  unlink : List ℕ → Sys
  fcntl_getfl : ℤ → Sys
  fcntl_setfl : ℤ → ℕ → Sys
  close : ℤ → Sys

-- The system, which answers each call from all calls made before it, and the reading of an address.
pub record Net : Type 0 where
  pub answer : List Sys → Sys → ℤ
  pub inet_addr : String → ℕ

abbrev pub S : Type 0 → Type 0
S A = List Sys → A × List Sys

abbrev pub sys : Net → Sys → S ℤ
sys k c l = (k.answer l c, c ∷ l)

infixl 5 ◌>>=◌ ◌>>◌
abbrev pub ◌>>=◌ : {A B : Type 0} → S A → (A → S B) → S B
(m >>= f) l = let (a, l') = m l in f a l'

abbrev pub ◌>>◌ : {A B : Type 0} → S A → S B → S B
(m >> n) l = let (_, l') = m l in n l'

abbrev pub return : {A : Type 0} → A → S A
return a l = (a, l)

-- The results of the tests `!= 0` and `< 0`.
abbrev pub is_ok : ℤ → Bool
is_ok (pos zero) = true
is_ok _ = false

abbrev pub is_error : ℤ → Bool
is_error (pos n) = false
is_error (negsuc n) = true

-- -1
abbrev pub minus_one : ℤ
minus_one = negsuc 0

-- The value of a call, or -1 where the next call fails.
abbrev pub unless_failed : Bool → ℤ → ℤ
unless_failed true r = minus_one
unless_failed false r = r

-- htons and htonl of a little-endian machine.
abbrev pub htons : ℕ → ℕ
htons n = n % 2 ^ 8 * 2 ^ 8 + n / 2 ^ 8 % 2 ^ 8

abbrev pub inaddr_any : ℕ
inaddr_any = 0

-- strncpy to sun_path, of 108 bytes, as the text before the first null byte. A text that fills sun_path
-- is taken to end there; strlen and unlink would read on.
abbrev pub take {ℓ} : {A : Type ℓ} → ℕ → List A → List A
take zero xs = []
take (suc n) [] = []
take (suc n) (x ∷ xs) = x ∷ take n xs

abbrev pub sun_path : List ℕ → List ℕ
sun_path addr = take 108 addr

-- The failure of socket is not tested: connect gets -1. The failure of connect sets clientSocket to
-- -1, which setsockopt gets. The two calls for bufsize > 30000 are commented out.
unfoldable pub create_connection : Net → ℕ → String → ℤ → S ℤ
create_connection k port addr bufsize = do
  s ← sys k (socket inet stream)
  c ← sys k (connect s (inet_at (htons (u16 port)) (k.inet_addr addr)))
  let client = if is_ok c then s else minus_one
  o ← sys k (setsockopt client so_reuseaddr (pos 1))
  return (unless_failed (is_error o) client)

unfoldable pub create_udp_connection : Net → ℕ → String → ℤ → S ℤ
create_udp_connection k port addr bufsize = sys k (socket inet dgram)

unfoldable pub create_internal_connection : Net → List ℕ → S ℤ
create_internal_connection k addr = do
  s ← sys k (socket unix stream)
  c ← sys k (connect s (unix_at (sun_path addr)))
  return (if is_ok c then s else minus_one)

abbrev pub max_servclients : ℕ
max_servclients = 5

-- bufsize > 0
abbrev pub is_positive : ℤ → Bool
is_positive (pos n) = ltb 0 n
is_positive (negsuc n) = false

set_buffers : Net → ℤ → ℤ → S (Unit {0})
set_buffers k s bufsize = do
  sys k (setsockopt s so_sndbuf bufsize)
  sys k (setsockopt s so_rcvbuf bufsize)
  return tt

-- No answer but that of socket is used; nodelay is not used either.
unfoldable pub create_service : Net → ℕ → ℤ → ℤ → S ℤ
unfolding set_buffers
create_service k port bufsize nodelay = do
  s ← sys k (socket inet stream)
  sys k (setsockopt s so_reuseaddr (pos 1))
  sys k (bind s (inet_at (htons port) inaddr_any))
  (if is_positive bufsize then set_buffers k s bufsize else return tt)
  sys k (getsockopt s so_sndbuf)
  sys k (getsockopt s so_rcvbuf)
  sys k (listen s max_servclients)
  return s

abbrev pub somaxconn : ℕ
somaxconn = 128

unfoldable pub create_internal_service : Net → List ℕ → S ℤ
create_internal_service k addr = do
  sys k (unlink (sun_path addr))
  s ← sys k (socket unix stream)
  sys k (bind s (unix_at (sun_path addr)))
  sys k (setsockopt s so_rcvlowat (pos 1))
  sys k (getsockopt s so_rcvlowat)
  sys k (listen s somaxconn)
  return s

unfoldable pub set_timeout : Net → ℤ → S (Unit {0})
set_timeout k sock = do
  sys k (setsockopt sock so_rcvtimeo (pos 3))
  sys k (setsockopt sock so_sndtimeo (pos 3))
  sys k (getsockopt sock so_sndbuf)
  sys k (getsockopt sock so_rcvbuf)
  return tt

unfoldable pub set_send_timeout : Net → ℤ → S (Unit {0})
set_send_timeout k sock = do sys k (setsockopt sock so_sndtimeo (pos 3)); return tt

-- The bits of an int.
abbrev pub int_bits : ℤ → ℕ
int_bits (pos n) = u32 n
int_bits (negsuc n) = 2 ^ 32 - 1 - u32 n

-- The number of the bit O_NONBLOCK, 04000 on Linux.
abbrev pub o_nonblock : ℕ
o_nonblock = 11

-- The test of opts < 0 does nothing.
unfoldable pub set_non_blocking : Net → ℤ → S (Unit {0})
set_non_blocking k sock = do
  opts ← sys k (fcntl_getfl sock)
  sys k (fcntl_setfl sock (set_bit (int_bits opts) o_nonblock))
  return tt
