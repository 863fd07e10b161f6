-- ===== src/Tests/Network.antt =====
-- Concrete connections.
use blockmania.Prelude.{
  ℕ, ◌<◌, List, [], ◌∷◌, ◌++◌, ◌≡◌, refl, length, take, drop, take-append, drop-append, Option,
  none, some, add_u64, ap, arith,
}
use blockmania.Network.Transport.{Transport, IsStream, Io, done, failed, Received, Sent}
use blockmania.Network.Conn.{Conn, Message, Codec, IsFaithful, read_message, write_request}
use blockmania.Network.Conn.Requests.{read_message-write_request}
use blockmania.Network.Conn.Closing.{Closes, requests_close}

record Pipe : Type 0 where
  incoming : List ℕ
  outgoing : List ℕ

abbrev read_one : ℕ → List ℕ → Pipe → Io ℕ (List ℕ) × Pipe
read_one room [] p = (failed 0, p)
read_one room (b ∷ bytes) p = (done (b ∷ []), record p { incoming = bytes })

abbrev write_one : List ℕ → Pipe → Io ℕ ℕ × Pipe
write_one [] p = (done 0, p)
write_one (b ∷ bytes) p = (done 1, record p { outgoing = p.outgoing ++ (b ∷ []) })

-- A pipe that moves one byte with every call.
abbrev pipe : Transport
pipe = record {
  Socket = Pipe;
  IoError = ℕ;
  read = λ room p. read_one room p.incoming p;
  write = write_one;
  close = λ p. record { incoming = []; outgoing = [] };
}

pipe_receives :
    (room : ℕ) (bytes : List ℕ) (p : Pipe)
    → p.incoming ≡ bytes
    → 0 < room
    → 0 < length bytes
    → Received pipe (λ q. q.incoming) room p
pipe_receives room [] p e h k = elim (nothing k) [ ]
  where
    nothing : 0 < 0 → ⊥
    nothing h = omega arith
pipe_receives room (b ∷ bytes) p e h k = record {
  bytes = b ∷ [];
  after = record p { incoming = bytes };
  returns = ap (λ l. read_one room l p) e;
  next = e;
  some_bytes = omega arith;
  fits = h;
}

pipe_sends : (bytes : List ℕ) (p : Pipe) → 0 < length bytes → Sent pipe (λ q. q.outgoing) bytes p
pipe_sends [] p h = elim (nothing h) [ ]
  where
    nothing : 0 < 0 → ⊥
    nothing h = omega arith
pipe_sends (b ∷ bytes) p h = record {
  count = 1;
  after = record p { outgoing = p.outgoing ++ (b ∷ []) };
  returns = refl;
  added = refl;
  some_bytes = omega arith;
  within = omega arith;
}

abbrev pipe_stream : IsStream pipe
pipe_stream = record {
  incoming = λ p. p.incoming;
  outgoing = λ p. p.outgoing;
  receives = λ room p h k. pipe_receives room p.incoming p refl h k;
  sends = pipe_sends;
}

abbrev message_bytes : Message → List ℕ
message_bytes m = m.id ∷ m.opcode ∷ length m.error_text ∷ (m.error_text ++ m.payload)

abbrev message_of : List ℕ → Option Message
message_of (id ∷ opcode ∷ n ∷ bytes) =
    some (record { id = id; error_text = take n bytes; opcode = opcode; payload = drop n bytes })
message_of bytes = none

abbrev message_codec : Codec
message_codec = record { marshal = λ m. some (message_bytes m); unmarshal = message_of }

abbrev message_codec-IsFaithful : IsFaithful message_codec
message_codec-IsFaithful = record {
  bytes = message_bytes;
  marshals = λ m. refl;
  unmarshals = λ m.
      rw
        (
          take-append m.error_text m.payload (length m.error_text) refl,
          drop-append m.error_text m.payload (length m.error_text) refl,
        )
        refl;
}

abbrev conn_on : List ℕ → List ℕ → Conn pipe
conn_on incoming outgoing = record {
  buf = 0 ∷ 0 ∷ 0 ∷ 0 ∷ 0 ∷ [];
  conn = record { incoming = incoming; outgoing = outgoing };
  last_id = 0;
}

abbrev request : Message
request = record { id = 0; error_text = []; opcode = 3; payload = 5 ∷ 6 ∷ 7 ∷ [] }

abbrev writer : Conn pipe
writer = conn_on [] (1 ∷ [])

-- The peer of the writer, with one more byte behind the message.
abbrev reader : Conn pipe
reader =
    conn_on
      (drop 1 (write_request pipe message_codec 41 request 100 writer).1.1.conn.outgoing
        ++ (9 ∷ []))
      []

read_message-write_request_example :
    ((write_request pipe message_codec 41 request 100 writer).1.0 ≡ done (add_u64 41 1))
    × ((read_message pipe message_codec 100 reader).0 ≡ done (record request { id = add_u64 41 1 }))
    × ((read_message pipe message_codec 100 reader).1.conn.incoming ≡ 9 ∷ [])
read_message-write_request_example =
    read_message-write_request pipe pipe_stream message_codec message_codec-IsFaithful 41 100 100
      request (9 ∷ []) writer reader (omega arith) (omega arith) (omega arith) (omega arith) refl

-- No byte comes in, and the request is too large.
requests_close_example :
    Closes pipe (read_message pipe message_codec 4 (conn_on [] []))
    × Closes pipe (write_request pipe message_codec 41 request 4 (conn_on [] [])).1
requests_close_example = requests_close pipe message_codec 4 41 request (conn_on [] [])
