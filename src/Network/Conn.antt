-- ===== src/Network/Conn.antt =====
-- A connection to a node (network/conn.go): payloads with their sizes before them, in a buffer that
-- calls use again. Marshalling is a parameter. The mutex of `WriteRequest` is left out: its call is a
-- step of its own.
pub mod Filling
pub mod Frames
pub mod Requests
pub mod Closing
use blockmania.Prelude.{
  ℕ, zero, suc, ◌+◌, ◌-◌, ◌^◌, List, [], ◌∷◌, Option, none, some, length, take, drop, replicate,
  ltb, leb, if◌then◌else◌, add_u64, ◌≡◌, Bool, true, false, not,
}
use blockmania.Lexinum.{Decoded, value, error, panic}
use blockmania.Broadcast.Words.{put_u32, read_u32}
use blockmania.Network.Transport.{Transport, Io, done, failed}
use blockmania.Network.Buffers.{write_at}

-- `stalled` is no error of the program: a call of `Read` or `Write` did nothing, and the code would
-- go on calling it. `panicked` is a buffer with no room for the size.
pub data ConnError (E : Type 0) : Type 0 where
  io : E → ConnError E
  size_overflow : ConnError E
  size_exceeds : ℕ → ConnError E
  marshal_failed : ConnError E
  unmarshal_failed : ConnError E
  stalled : ConnError E
  panicked : ConnError E

module _ (t : Transport) where
  -- `Conn`.
  pub record Conn : Type 0 where
    pub buf : List ℕ
    pub conn : t.Socket
    pub last_id : ℕ

  abbrev pub Result : Type 0 → Type 0
  Result A = Io (ConnError t.IoError) A × Conn

  -- `NewConn`.
  unfoldable pub new_conn : t.Socket → Conn
  new_conn s = record { buf = replicate 1024 0; conn = s; last_id = 0 }

  -- `c.conn.Close()`.
  abbrev pub close : Conn → Conn
  close c = record c { conn = t.close c.conn }

  -- `c.conn.Close(); return ..., err`.
  abbrev pub refuse : {A : Type 0} → ConnError t.IoError → Conn → Result A
  refuse e c = (failed e, close c)

  -- `if err != nil { return ..., err }`.
  abbrev pub on_done : {A B : Type 0} → Result A → (A → Conn → Result B) → Result B
  on_done (done a, c) next = next a c
  on_done (failed e, c) next = (failed e, c)

  -- What follows a call of `Read` or `Write`.
  abbrev pub on_io :
      {A B : Type 0} → Conn → Io t.IoError A × t.Socket → (A → Conn → Result B) → Result B
  on_io c (done a, s) next = next a (record c { conn = s })
  on_io c (failed e, s) next = refuse (io e) (record c { conn = s })

  -- The loop of `readPayload` that reads `need` bytes into the buffer, from `pos` on.
  unfoldable pub read_fill : ℕ → ℕ → ℕ → Conn → Result (Unit {0})
  read_fill fuel pos zero c = (done tt, c)
  read_fill zero pos (suc need) c = (failed stalled, c)
  read_fill (suc fuel) pos (suc need) c = on_io c (t.read (suc need) c.conn) λ bytes c'.
      read_fill fuel (pos + length bytes) (suc need - length bytes)
        (record c' { buf = write_at pos bytes c'.buf })

  -- The rest of `readPayload` behind the tests of the size.
  unfoldable pub read_body : ℕ → Conn → Result (List ℕ)
  unfolding read_fill
  read_body size c =
      let c' = record c { buf = if ltb (length c.buf) size then replicate size 0 else c.buf } in
      on_done (read_fill size 0 size c') (λ _ c''. (done (take size c''.buf), c''))

  -- The tests of the size, which is read as an `int32`.
  unfoldable pub read_sized : ℕ → Decoded (ℕ × List ℕ) → Conn → Result (List ℕ)
  unfolding read_body
  read_sized limit panic c = (failed panicked, c)
  read_sized limit (error e) c = (failed panicked, c)
  read_sized limit (value (size, behind)) c =
      if leb (2 ^ 31) size
      then refuse size_overflow c
      else if ltb limit size
      then refuse (size_exceeds size) c
      else read_body size c

  -- `readPayload`.
  unfoldable pub read_payload : ℕ → Conn → Result (List ℕ)
  unfolding read_fill read_sized read_u32
  read_payload limit c = on_done (read_fill 4 0 4 c) (λ _ c'. read_sized limit (read_u32 c'.buf) c')

  -- The loops of `WritePayload`.
  unfoldable pub write_all : ℕ → List ℕ → Conn → Result (Unit {0})
  write_all fuel [] c = (done tt, c)
  write_all zero (b ∷ bytes) c = (failed stalled, c)
  write_all (suc fuel) (b ∷ bytes) c =
      on_io c (t.write (b ∷ bytes) c.conn) (λ n c'. write_all fuel (drop n (b ∷ bytes)) c')

  -- `WritePayload`, of what `proto.Marshal` returned. The size is cut to 32 bits.
  unfoldable pub write_payload : Option (List ℕ) → ℕ → Conn → Result (Unit {0})
  write_payload none limit c = refuse marshal_failed c
  write_payload (some payload) limit c =
      if ltb limit (length payload)
      then refuse (size_exceeds (length payload)) c
      else let c' = record c { buf = write_at 0 (put_u32 (length payload)) c.buf } in
        on_done (write_all 4 (take 4 c'.buf) c') (λ _ c''. write_all (length payload) payload c'')

-- `service.Message`, with the texts and the payload as bytes.
pub record Message : Type 0 where
  pub id : ℕ
  pub error_text : List ℕ
  pub opcode : ℕ
  pub payload : List ℕ

-- `proto.Marshal` and `proto.Unmarshal` of a message.
pub record Codec : Type 0 where
  pub marshal : Message → Option (List ℕ)
  pub unmarshal : List ℕ → Option Message

-- What is encoded is decoded as it was.
pub record IsFaithful (codec : Codec) : Type 0 where
  pub bytes : Message → List ℕ
  pub marshals : (m : Message) → codec.marshal m ≡ some (bytes m)
  pub unmarshals : (m : Message) → codec.unmarshal (bytes m) ≡ some m

module _ (t : Transport) (codec : Codec) where
  abbrev pub decoded : Option Message → Conn t → Result t Message
  decoded none c = (failed unmarshal_failed, c)
  decoded (some m) c = (done m, c)

  -- `ReadMessage`.
  unfoldable pub read_message : ℕ → Conn t → Result t Message
  read_message limit c =
      on_done t (read_payload t limit c) (λ payload c'. decoded (codec.unmarshal payload) c')

  -- `WriteRequest`, from a value of `atomicid` to the next one, which is the message's id.
  unfoldable pub write_request : ℕ → Message → ℕ → Conn t → ℕ × Result t ℕ
  write_request atomicid m limit c =
      let id = add_u64 atomicid 1 in
      let c' = record c { last_id = add_u64 c.last_id 1 } in
      (
        id,
        on_done t (write_payload t (codec.marshal (record m { id = id })) limit c')
            (λ _ c''. (done id, c'')),
      )

-- What `AbnormalError` looks at: `io.EOF`, an error with a method `Timeout`, or any other.
pub data Failure : Type 0 where
  eof : Failure
  timeout : Bool → Failure
  other : Failure

-- `AbnormalError`.
unfoldable pub abnormal_error : Failure → Bool
abnormal_error eof = false
abnormal_error (timeout b) = not b
abnormal_error other = true
