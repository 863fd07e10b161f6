-- ===== src/Network/Conn/Filling.antt =====
-- The loops over the pieces of a stream: they end, with all bytes that are wanted.
use blockmania.Prelude.{
  ℕ, zero, suc, ◌+◌, ◌-◌, ◌≤◌, List, [], ◌∷◌, ◌++◌, ◌≡◌, refl, ap, sym, ◌∙◌, length, take, drop,
  length-append, length-drop, take-drop, arith,
}
use mathlib.Core.List.{append_assoc, append-nil}
use blockmania.Network.Transport.{Transport, IsStream, Received, done}
use blockmania.Network.Buffers.{
  write_at, take-write_at, length-write_at, take-append_more, drop-append_more,
}
use blockmania.Network.Conn.{Conn, Result, read_fill, write_all}

module _ (t : Transport) (st : IsStream t) where
  -- After reading `need` bytes into the buffer at `pos`.
  pub record Filled (c : Conn t) (pos need : ℕ) (r : Result t (Unit {0})) : Type 0 where
    pub returns : r.0 ≡ done tt
    pub filled : take (pos + need) r.1.buf ≡ take pos c.buf ++ take need (st.incoming c.conn)
    pub same_size : length r.1.buf ≡ length c.buf
    pub left : st.incoming r.1.conn ≡ drop need (st.incoming c.conn)

  -- One piece, and the rest.
  Filled-piece :
      (c : Conn t) (pos need : ℕ) (a : Received t st.incoming need c.conn) (r : Result t (Unit {0}))
      → pos + need ≤ length c.buf
      → Filled
          (record c { conn = a.after; buf = write_at pos a.bytes c.buf })
          (pos + length a.bytes)
          (need - length a.bytes)
          r
      → Filled c pos need r
  Filled-piece c pos need a r room f =
      let n = length a.bytes in
      let whole : pos + n + (need - n) ≡ pos + need = omega (arith, a.fits) in
      let fits : pos + n ≤ length c.buf = omega (arith, a.fits) in
      record {
        returns = f.returns;
        filled =
            ap (λ (k : ℕ). take k r.1.buf) (sym whole)
            ∙ f.filled
            ∙ ap (λ l. l ++ take (need - n) (st.incoming a.after))
                (take-write_at pos a.bytes c.buf fits)
            ∙ append_assoc (take pos c.buf) a.bytes (take (need - n) (st.incoming a.after))
            ∙ ap (λ l. take pos c.buf ++ l)
                (sym (take-append_more a.bytes (st.incoming a.after) need a.fits))
            ∙ ap (λ l. take pos c.buf ++ take need l) (sym a.next);
        same_size = f.same_size ∙ length-write_at pos a.bytes c.buf fits;
        left =
            f.left
            ∙ sym (drop-append_more a.bytes (st.incoming a.after) need a.fits)
            ∙ ap (drop need) (sym a.next);
      }

  -- The bytes that are wanted arrive in whatever pieces: they are read, no more than these, and
  -- the buffer is left alone elsewhere before them.
  pub read_fill-Filled :
      (fuel pos need : ℕ) (c : Conn t)
      → need ≤ fuel
      → pos + need ≤ length c.buf
      → need ≤ length (st.incoming c.conn)
      → Filled c pos need (read_fill t fuel pos need c)
  unfolding read_fill
  read_fill-Filled fuel pos zero c enough room there = record {
    returns = refl;
    filled = ap (λ (k : ℕ). take k c.buf) (omega arith) ∙ sym (append-nil (take pos c.buf));
    same_size = refl;
    left = refl;
  }
  read_fill-Filled zero pos (suc need) c enough room there = absurd (omega arith)
  read_fill-Filled (suc fuel) pos (suc need) c enough room there =
      let a = st.receives (suc need) c.conn (omega arith) (omega arith) in
      let n = length a.bytes in
      let fits : pos + n ≤ length c.buf = omega (arith, a.fits) in
      let c' : Conn t = record c { conn = a.after; buf = write_at pos a.bytes c.buf } in
      let more : length (st.incoming c.conn) ≡ n + length (st.incoming a.after) =
        ap length a.next ∙ length-append a.bytes (st.incoming a.after) in
      let rest =
        read_fill-Filled fuel (pos + n) (suc need - n) c' (omega (arith, a.some_bytes))
          (omega (arith, a.fits, length-write_at pos a.bytes c.buf fits)) (omega (arith, a.fits)) in
      rw a.returns (Filled-piece c pos (suc need) a _ room rest)

  -- After writing all the bytes.
  pub record Written (c : Conn t) (bytes : List ℕ) (r : Result t (Unit {0})) : Type 0 where
    pub returns : r.0 ≡ done tt
    pub added : st.outgoing r.1.conn ≡ st.outgoing c.conn ++ bytes

  pub write_all-Written :
      (fuel : ℕ) (bytes : List ℕ) (c : Conn t)
      → length bytes ≤ fuel
      → Written c bytes (write_all t fuel bytes c)
  unfolding write_all
  write_all-Written fuel [] c enough = record {
    returns = refl;
    added = sym (append-nil (st.outgoing c.conn));
  }
  write_all-Written zero (b ∷ bytes) c enough = absurd (omega arith)
  write_all-Written (suc fuel) (b ∷ bytes) c enough =
      let all : List ℕ = b ∷ bytes in
      let a = st.sends all c.conn (omega arith) in
      let c' : Conn t = record c { conn = a.after } in
      let rest =
        write_all-Written fuel (drop a.count all) c'
          (omega (arith, length-drop {0} a.count all, a.some_bytes, a.within)) in
      rw a.returns (record {
        returns = rest.returns;
        added =
            rest.added
            ∙ ap (λ l. l ++ drop a.count all) a.added
            ∙ append_assoc (st.outgoing c.conn) (take a.count all) (drop a.count all)
            ∙ ap (λ l. st.outgoing c.conn ++ l) (take-drop a.count all);
      })
