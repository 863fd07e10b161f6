-- ===== src/Network/Conn/Requests.antt =====
-- What one side writes, the other reads.
use mathlib.Core.List.{append_assoc}
use blockmania.Prelude.{
  ℕ, ◌+◌, ◌^◌, ◌≤◌, ◌<◌, List, ◌++◌, ◌≡◌, refl, ap, sym, subst, add_u64, ◌∙◌, length, take, drop,
  take-append, drop-append, ltb, false, some, arith,
}
use blockmania.Broadcast.Words.{put_u32}
use blockmania.Network.Transport.{Transport, IsStream, done}
use blockmania.Network.Buffers.{write_at}
use blockmania.Network.Conn.{
  Message, Codec, IsFaithful, decoded, read_message, write_request, Conn, read_payload, write_all,
  write_payload,
}
use blockmania.Network.Conn.Filling.{Written, write_all-Written}
use blockmania.Network.Conn.Frames.{on_done-done, length-put_u32, read_payload-Reads}

module _ (t : Transport) (st : IsStream t) where
  -- A payload within the limit is written whole, behind its size.
  write_payload-Written :
      (limit : ℕ) (payload : List ℕ) (c : Conn t)
      → length payload ≤ limit
      → Written t st c
          (put_u32 (length payload) ++ payload)
          (write_payload t (some payload) limit c)
  unfolding write_payload
  write_payload-Written limit payload c within =
      let n = length payload in
      let within' : ltb limit n ≡ false = ground arith in
      let header = put_u32 n in
      let c' : Conn t = record c { buf = write_at 0 header c.buf } in
      let front : take 4 c'.buf ≡ header =
        take-append header (drop (0 + length header) c.buf) 4 (sym (length-put_u32 n)) in
      let h =
        subst (λ l. Written t st c' l (write_all t 4 (take 4 c'.buf) c')) front
          (write_all-Written t st 4 (take 4 c'.buf) c'
            (omega (arith, ap length front, length-put_u32 n))) in
      let c'' = (write_all t 4 (take 4 c'.buf) c').1 in
      let p = write_all-Written t st n payload c'' (omega arith) in
      let whole =
        on_done-done t (write_all t 4 (take 4 c'.buf) c') (λ _ d. write_all t n payload d) tt
          h.returns in
      rw within' (record {
        returns = ap (λ z. z.0) whole ∙ p.returns;
        added =
            ap (λ z. st.outgoing z.1.conn) whole
            ∙ p.added
            ∙ ap (λ l. l ++ payload) h.added
            ∙ append_assoc (st.outgoing c.conn) header payload;
      })

module _ (t : Transport) (st : IsStream t) (codec : Codec) (f : IsFaithful codec) where
  -- A request, with the next id, is within the limits of both sides and below 2 ^ 31 bytes. It is written
  -- with that id, and a peer that has room for a size and the written bytes before it, whatever follows
  -- them, reads that message and leaves what follows.
  pub read_message-write_request :
      (atomicid limit limit' : ℕ) (m : Message) (rest : List ℕ) (w r : Conn t)
      → 4 ≤ length r.buf
      → length (f.bytes (record m { id = add_u64 atomicid 1 })) ≤ limit
      → length (f.bytes (record m { id = add_u64 atomicid 1 })) ≤ limit'
      → length (f.bytes (record m { id = add_u64 atomicid 1 })) < 2 ^ 31
      → st.incoming r.conn
        ≡ drop
            (length (st.outgoing w.conn))
            (st.outgoing (write_request t codec atomicid m limit w).1.1.conn)
          ++ rest
      → ((write_request t codec atomicid m limit w).1.0 ≡ done (add_u64 atomicid 1))
        × ((read_message t codec limit' r).0 ≡ done (record m { id = add_u64 atomicid 1 }))
        × (st.incoming (read_message t codec limit' r).1.conn ≡ rest)
  unfolding write_request read_message
  read_message-write_request atomicid limit limit' m rest w r room fits fits' small comes =
      let id = add_u64 atomicid 1 in
      let m' : Message = record m { id = id } in
      let p = f.bytes m' in
      let framed = put_u32 (length p) ++ p in
      let c' : Conn t = record w { last_id = add_u64 w.last_id 1 } in
      let wr = write_payload t (codec.marshal m') limit c' in
      let written =
        subst (λ o. Written t st c' framed (write_payload t o limit c')) (sym (f.marshals m'))
          (write_payload-Written t st limit p c' fits) in
      let wrote = on_done-done t wr (λ _ c''. (done id, c'')) tt written.returns in
      let sent : st.outgoing (write_request t codec atomicid m limit w).1.1.conn
          ≡ st.outgoing w.conn ++ framed =
        ap (λ z. st.outgoing z.1.conn) wrote ∙ written.added in
      let comes' : st.incoming r.conn ≡ put_u32 (length p) ++ (p ++ rest) =
        comes
        ∙ ap (λ l. drop (length (st.outgoing w.conn)) l ++ rest) sent
        ∙ ap (λ l. l ++ rest) (drop-append (st.outgoing w.conn) framed _ refl)
        ∙ append_assoc (put_u32 (length p)) p rest in
      let got = read_payload-Reads t st limit' p rest r room small fits' comes' in
      let read =
        on_done-done t (read_payload t limit' r) _ p got.returns
        ∙ ap (λ o. decoded t codec o (read_payload t limit' r).1) (f.unmarshals m') in
      (ap (λ z. z.0) wrote, ap (λ z. z.0) read, ap (λ z. st.incoming z.1.conn) read ∙ got.left)
