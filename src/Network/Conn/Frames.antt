-- ===== src/Network/Conn/Frames.antt =====
-- What `readPayload` makes of the size before a payload, and `WritePayload` of a payload.
use blockmania.Prelude.{
  ℕ, ◌+◌, ◌^◌, ◌≤◌, ◌<◌, List, ◌++◌, ◌≡◌, refl, ap, sym, ◌∙◌, length, take, drop, replicate,
  length-replicate, length-append, take-drop, take-append, drop-append, ltb, leb, if◌then◌else◌,
  true, false, Bool-cases, inl, inr, ◌⊎◌, arith,
}
use native.Mathlib.Nat.{zero-add}
use blockmania.Lexinum.{value}
use blockmania.Broadcast.Words.{put_u32, read_u32}
use blockmania.Broadcast.Words.RoundTrip.{read_u32-put_u32}
use blockmania.Network.Transport.{Transport, IsStream, done, failed}
use blockmania.Network.Conn.{
  size_overflow, size_exceeds, Conn, Result, on_done, close, read_fill, read_body, read_sized,
  read_payload,
}
use blockmania.Network.Conn.Filling.{read_fill-Filled}

pub length-put_u32 : (n : ℕ) → length (put_u32 n) ≡ 4
unfolding put_u32
length-put_u32 n = refl

module _ (t : Transport) where
  pub on_done-done :
      {A B : Type 0} (r : Result t A) (next : A → Conn t → Result t B) (a : A)
      → r.0 ≡ done a
      → on_done t r next ≡ next a r.1
  on_done-done (done b, c) next a e = let same : b ≡ a = cc in ap (λ z. next z c) same
  on_done-done (failed x, c) next a e = cc

module _ (t : Transport) (st : IsStream t) where
  -- The size of a payload and the bytes behind it come in.
  record Starts (n : ℕ) (rest : List ℕ) (c : Conn t) : Type 0 where
    header : read_u32 c.buf ≡ value (n, drop 4 c.buf)
    behind : st.incoming c.conn ≡ rest

  header-Starts :
      (n : ℕ) (rest : List ℕ) (c : Conn t)
      → 4 ≤ length c.buf
      → n < 2 ^ 32
      → st.incoming c.conn ≡ put_u32 n ++ rest
      → ((read_fill t 4 0 4 c).0 ≡ done tt) × Starts n rest (read_fill t 4 0 4 c).1
  header-Starts n rest c room small comes =
      let four = length-put_u32 n in
      let enough : 4 ≤ length (st.incoming c.conn) =
        omega (arith, ap length comes, length-append {0} (put_u32 n) rest) in
      let f = read_fill-Filled t st 4 0 4 c (omega arith) room enough in
      let buf = (read_fill t 4 0 4 c).1.buf in
      let front : take 4 buf ≡ put_u32 n =
        f.filled ∙ ap (take 4) comes ∙ take-append (put_u32 n) rest 4 (sym four) in
      (
        f.returns,
        record {
          header =
              ap read_u32 (sym (take-drop 4 buf) ∙ ap (λ l. l ++ drop 4 buf) front)
              ∙ read_u32-put_u32 n (drop 4 buf) small;
          behind = f.left ∙ ap (drop 4) comes ∙ drop-append (put_u32 n) rest 4 (sym four);
        },
      )

  read_payload_starts :
      (limit n : ℕ) (rest : List ℕ) (c : Conn t)
      → 4 ≤ length c.buf
      → n < 2 ^ 32
      → st.incoming c.conn ≡ put_u32 n ++ rest
      → (c' : Conn t) × (read_payload t limit c ≡ read_sized t limit (value (n, drop 4 c'.buf)) c')
        × (st.incoming c'.conn ≡ rest)
  unfolding read_payload
  read_payload_starts limit n rest c room small comes =
      let (returns, s) = header-Starts n rest c room small comes in
      let c' = (read_fill t 4 0 4 c).1 in
      (
        c',
        on_done-done t (read_fill t 4 0 4 c) _ tt returns
            ∙ ap (λ d. read_sized t limit d c') s.header,
        s.behind,
      )

  read_sized_refuses :
      (limit n : ℕ) (behind : List ℕ) (c : Conn t)
      → (2 ^ 31 ≤ n) ⊎ (limit < n)
      → read_sized t limit (value (n, behind)) c
        ≡ (failed (if leb (2 ^ 31) n then size_overflow else size_exceeds n), close t c)
  unfolding read_sized
  read_sized_refuses limit n behind c large = elim (Bool-cases (leb (2 ^ 31) n)) [
    | inl huge ↦ rw huge refl
    | inr fits ↦ let above : ltb limit n ≡ true = ground arith in rw (fits, above) refl
  ]

  -- A size that does not fit an `int32`, or is above the limit, is refused by the error that says so,
  -- whatever comes behind it and in whatever pieces, if the buffer has room for the size. The
  -- connection is closed then, with just the size read from it.
  read_payload_refuses :
      (limit n : ℕ) (rest : List ℕ) (c : Conn t)
      → 4 ≤ length c.buf
      → n < 2 ^ 32
      → (2 ^ 31 ≤ n) ⊎ (limit < n)
      → st.incoming c.conn ≡ put_u32 n ++ rest
      → (c' : Conn t) × (read_payload t limit c
          ≡ (failed (if leb (2 ^ 31) n then size_overflow else size_exceeds n), close t c'))
        × (st.incoming c'.conn ≡ rest)
  read_payload_refuses limit n rest c room small large comes =
      let (c', reads, behind) = read_payload_starts limit n rest c room small comes in
      (c', reads ∙ read_sized_refuses limit n (drop 4 c'.buf) c' large, behind)

  -- What reading a payload of the buffer's own leaves.
  pub record Reads (payload rest : List ℕ) (c : Conn t) (r : Result t (List ℕ)) : Type 0 where
    pub returns : r.0 ≡ done payload
    pub left : st.incoming r.1.conn ≡ rest

  read_body-Reads :
      (payload rest : List ℕ) (c : Conn t)
      → st.incoming c.conn ≡ payload ++ rest
      → Reads payload rest c (read_body t (length payload) c)
  unfolding read_body
  read_body-Reads payload rest c comes =
      let n = length payload in
      let c' : Conn t = record c { buf = if ltb (length c.buf) n then replicate n 0 else c.buf } in
      let room : 0 + n ≤ length c'.buf = room_for n c.buf in
      let enough : n ≤ length (st.incoming c.conn) =
        omega (arith, ap length comes, length-append {0} payload rest) in
      let f = read_fill-Filled t st n 0 n c' (omega arith) room enough in
      let whole =
        on_done-done t (read_fill t n 0 n c') (λ _ c''. (done (take n c''.buf), c'')) tt
          f.returns in
      let got : take n (read_fill t n 0 n c').1.buf ≡ payload =
        ap (λ (k : ℕ). take k (read_fill t n 0 n c').1.buf) (sym (zero-add n))
        ∙ f.filled
        ∙ ap (take n) comes
        ∙ take-append payload rest n refl in
      record {
        returns = ap (λ z. z.0) whole ∙ ap done got;
        left =
            ap (λ z. st.incoming z.1.conn) whole
            ∙ f.left
            ∙ ap (drop n) comes
            ∙ drop-append payload rest n refl;
      }
    where
      room_for :
          (n : ℕ) (buf : List ℕ)
          → 0 + n ≤ length (if ltb (length buf) n then replicate n 0 else buf)
      room_for n buf = elim (Bool-cases (ltb (length buf) n)) [
        | inl short ↦ rw short (omega (arith, length-replicate {0} {A = ℕ} n 0))
        | inr long ↦ rw long (ground arith)
      ]

  -- A payload that is within the limit and comes behind its size is read whole, whatever pieces it
  -- comes in and whatever the buffer holds, and what comes after it is left.
  pub read_payload-Reads :
      (limit : ℕ) (payload rest : List ℕ) (c : Conn t)
      → 4 ≤ length c.buf
      → length payload < 2 ^ 31
      → length payload ≤ limit
      → st.incoming c.conn ≡ put_u32 (length payload) ++ (payload ++ rest)
      → Reads payload rest c (read_payload t limit c)
  unfolding read_sized
  read_payload-Reads limit payload rest c room small within comes =
      let n = length payload in
      let (c', reads, behind) =
        read_payload_starts limit n (payload ++ rest) c room (omega arith) comes in
      let whole = reads ∙ read_sized_body n (drop 4 c'.buf) c' (ground arith) (ground arith) in
      let b = read_body-Reads payload rest c' behind in
      record {
        returns = ap (λ z. z.0) whole ∙ b.returns;
        left = ap (λ z. st.incoming z.1.conn) whole ∙ b.left;
      }
    where
      read_sized_body :
          (n : ℕ) (behind : List ℕ) (c : Conn t)
          → leb (2 ^ 31) n ≡ false
          → ltb limit n ≡ false
          → read_sized t limit (value (n, behind)) c ≡ read_body t n c
      read_sized_body n behind c e d = rw (e, d) refl
