-- ===== src/Network/Conn/Closing.antt =====
-- A call that fails closes the connection.
use blockmania.Prelude.{
  ℕ, zero, suc, ◌+◌, ◌-◌, ◌^◌, List, [], ◌∷◌, Option, none, some, ◌≡◌, refl, length, take, drop,
  leb, ltb, if◌then◌else◌, Bool, true, false, replicate, add_u64,
}
use blockmania.Lexinum.{Decoded, value, error, panic}
use blockmania.Broadcast.Words.{put_u32, read_u32}
use blockmania.Network.Transport.{Transport, Io, done, failed}
use blockmania.Network.Buffers.{write_at}
use blockmania.Network.Conn.{
  ConnError, io, size_overflow, size_exceeds, marshal_failed, unmarshal_failed, stalled, panicked,
  Conn, Result, on_done, on_io, read_fill, read_body, read_sized, read_payload, write_all,
  write_payload, Message, Codec, decoded, read_message, write_request,
}

module _ (t : Transport) where
  -- The call failed last in closing the connection, but for a message that cannot be decoded.
  abbrev pub ClosedBy : ConnError t.IoError → Conn t → Type 0
  ClosedBy (io e) c = (s : t.Socket) × (c.conn ≡ t.close s)
  ClosedBy size_overflow c = (s : t.Socket) × (c.conn ≡ t.close s)
  ClosedBy (size_exceeds n) c = (s : t.Socket) × (c.conn ≡ t.close s)
  ClosedBy marshal_failed c = (s : t.Socket) × (c.conn ≡ t.close s)
  ClosedBy unmarshal_failed c = Unit
  ClosedBy stalled c = Unit
  ClosedBy panicked c = Unit

  abbrev pub Closes : {A : Type 0} → Result t A → Type 0
  Closes (done a, c) = Unit
  Closes (failed e, c) = ClosedBy e c

  on_done-Closes :
      {A B : Type 0} (r : Result t A) (next : A → Conn t → Result t B)
      → Closes r
      → ((a : A) (c : Conn t) → Closes (next a c))
      → Closes (on_done t r next)
  on_done-Closes (done a, c) next h k = k a c
  on_done-Closes (failed e, c) next h k = h

  on_io-Closes :
      {A B : Type 0} (c : Conn t) (r : Io t.IoError A × t.Socket) (next : A → Conn t → Result t B)
      → ((a : A) (c' : Conn t) → Closes (next a c'))
      → Closes (on_io t c r next)
  on_io-Closes c (done a, s) next k = k a (record c { conn = s })
  on_io-Closes c (failed e, s) next k = (s, refl)

  if-Closes :
      {A : Type 0} (b : Bool) (x y : Result t A) → Closes x → Closes y → Closes (if b then x else y)
  if-Closes true x y h k = h
  if-Closes false x y h k = k

  read_fill-Closes : (fuel pos need : ℕ) (c : Conn t) → Closes (read_fill t fuel pos need c)
  unfolding read_fill
  read_fill-Closes fuel pos zero c = tt
  read_fill-Closes zero pos (suc need) c = tt
  read_fill-Closes (suc fuel) pos (suc need) c =
      on_io-Closes c (t.read (suc need) c.conn) _ λ bytes c'.
        read_fill-Closes fuel (pos + length bytes) (suc need - length bytes)
          (record c' { buf = write_at pos bytes c'.buf })

  read_body-Closes : (size : ℕ) (c : Conn t) → Closes (read_body t size c)
  unfolding read_body
  read_body-Closes size c =
      let c' : Conn t = record c {
        buf = if ltb (length c.buf) size then replicate size 0 else c.buf;
      } in
      on_done-Closes (read_fill t size 0 size c') _ (read_fill-Closes size 0 size c') (λ _ d. tt)

  read_sized-Closes :
      (limit : ℕ) (d : Decoded (ℕ × List ℕ)) (c : Conn t) → Closes (read_sized t limit d c)
  unfolding read_sized
  read_sized-Closes limit panic c = tt
  read_sized-Closes limit (error e) c = tt
  read_sized-Closes limit (value (size, behind)) c =
      if-Closes (leb (2 ^ 31) size) _ _ (c.conn, refl)
        (if-Closes (ltb limit size) _ _ (c.conn, refl) (read_body-Closes size c))

  read_payload-Closes : (limit : ℕ) (c : Conn t) → Closes (read_payload t limit c)
  unfolding read_payload
  read_payload-Closes limit c =
      on_done-Closes (read_fill t 4 0 4 c) _ (read_fill-Closes 4 0 4 c)
        (λ _ c'. read_sized-Closes limit (read_u32 c'.buf) c')

  write_all-Closes : (fuel : ℕ) (bytes : List ℕ) (c : Conn t) → Closes (write_all t fuel bytes c)
  unfolding write_all
  write_all-Closes fuel [] c = tt
  write_all-Closes zero (b ∷ bytes) c = tt
  write_all-Closes (suc fuel) (b ∷ bytes) c =
      on_io-Closes c (t.write (b ∷ bytes) c.conn) _
        (λ n c'. write_all-Closes fuel (drop n (b ∷ bytes)) c')

  write_payload-Closes :
      (o : Option (List ℕ)) (limit : ℕ) (c : Conn t) → Closes (write_payload t o limit c)
  unfolding write_payload
  write_payload-Closes none limit c = (c.conn, refl)
  write_payload-Closes (some payload) limit c =
      let c' : Conn t = record c { buf = write_at 0 (put_u32 (length payload)) c.buf } in
      if-Closes (ltb limit (length payload)) _ _ (c.conn, refl)
        (on_done-Closes (write_all t 4 (take 4 c'.buf) c') _ (write_all-Closes 4 (take 4 c'.buf) c')
          (λ _ c''. write_all-Closes (length payload) payload c''))

module _ (t : Transport) (codec : Codec) where
  decoded-Closes : (o : Option Message) (c : Conn t) → Closes t (decoded t codec o c)
  decoded-Closes none c = tt
  decoded-Closes (some m) c = tt

  -- A call of `ReadMessage` or `WriteRequest` that fails because of the transport, a size or
  -- `proto.Marshal` has closed the connection as its last step, on any transport.
  pub requests_close :
      (limit atomicid : ℕ) (m : Message) (c : Conn t)
      → Closes t (read_message t codec limit c)
        × Closes t (write_request t codec atomicid m limit c).1
  unfolding read_message write_request
  requests_close limit atomicid m c =
      let m' : Message = record m { id = add_u64 atomicid 1 } in
      let c' : Conn t = record c { last_id = add_u64 c.last_id 1 } in
      (
        on_done-Closes t (read_payload t limit c) _ (read_payload-Closes t limit c)
            (λ payload d. decoded-Closes (codec.unmarshal payload) d),
        on_done-Closes t (write_payload t (codec.marshal m') limit c') _
            (write_payload-Closes t (codec.marshal m') limit c') (λ _ d. tt),
      )
