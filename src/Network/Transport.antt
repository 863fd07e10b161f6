-- ===== src/Network/Transport.antt =====
-- What network/ uses of a `net.Conn`: reading, writing, closing. The deadlines are left out: a time-out
-- is an error of a call.
use blockmania.Prelude.{ℕ, ◌≤◌, ◌<◌, List, ◌++◌, ◌≡◌, length, take}

pub data Io (E A : Type 0) : Type 0 where
  done : A → Io E A
  failed : E → Io E A

pub record Transport : Type 1 where
  pub Socket : Type 0
  pub IoError : Type 0
  -- `Read` into a slice with room for so many bytes: the bytes that it put there.
  pub read : ℕ → Socket → Io IoError (List ℕ) × Socket
  -- `Write`: how many of the bytes it wrote.
  pub write : List ℕ → Socket → Io IoError ℕ × Socket
  pub close : Socket → Socket

-- A call of `Read` that returns one byte at least and no more than there is room for, the next ones
-- of those that come in.
pub record Received (t : Transport) (incoming : t.Socket → List ℕ) (room : ℕ) (s : t.Socket)
    : Type 0 where
  pub bytes : List ℕ
  pub after : t.Socket
  pub returns : t.read room s ≡ (done bytes, after)
  pub next : incoming s ≡ bytes ++ incoming after
  pub some_bytes : 0 < length bytes
  pub fits : length bytes ≤ room

-- A call of `Write` that writes one byte at least.
pub record Sent (t : Transport) (outgoing : t.Socket → List ℕ) (bytes : List ℕ) (s : t.Socket)
    : Type 0 where
  pub count : ℕ
  pub after : t.Socket
  pub returns : t.write bytes s ≡ (done count, after)
  pub added : outgoing after ≡ outgoing s ++ take count bytes
  pub some_bytes : 0 < count
  pub within : count ≤ length bytes

-- A connection that works: while bytes are to come in, `Read` returns some of them, in whatever
-- pieces, and `Write` takes some of the bytes that it is given.
pub record IsStream (t : Transport) : Type 0 where
  pub incoming : t.Socket → List ℕ
  pub outgoing : t.Socket → List ℕ
  pub receives :
      (room : ℕ) (s : t.Socket) → 0 < room → 0 < length (incoming s) → Received t incoming room s
  pub sends : (bytes : List ℕ) (s : t.Socket) → 0 < length bytes → Sent t outgoing bytes s
