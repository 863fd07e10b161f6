-- ===== src/Broadcast/Delivery/Exact.antt =====
-- Every round reaches the callback once, whenever it is registered.
use blockmania.Prelude.{
  ℕ, ◌+◌, ◌-◌, List, [], ◌∷◌, ◌++◌, map, length, true, false, ◌==◌, ◌≡◌, refl, ap, sym, subst, ◌∙◌,
  All, IsU64, add_u64, arith,
}
use mathlib.Core.List.{append_assoc, append-nil}
use blockmania.Broadcast.Wire.{SignedData, Codec, IsCodec}
use blockmania.Broadcast.Database.{Database, IsDatabase}
use blockmania.Broadcast.Replies.{
  Reply, returned, failed, crashed, key_not_found, db_closed, bad_message, bad_key,
}
use blockmania.Broadcast.Store.{
  BlockStore, get_interpreted, get_last_interpreted, get_deliver_acknowledged,
}
use blockmania.Broadcast.Store.Rounds.{Stored}
use blockmania.Broadcast.Delivery.{
  Delivery, Served, served, ◌>>=◌, on_acknowledged, on_interpreted, blockmania_callback, after_last,
  replay_rounds, register, restart, deliver_all,
}
use blockmania.Broadcast.Delivery.Logged.{
  Round, HasRound, get_interpreted-HasRound, get_blocks-Stored, Records, set_interpreted-Records,
}
use blockmania.Broadcast.Delivery.Idle.{
  Follows, AckIs, LastIs, call_of, rounds_of, IsIdle, AllStored, Records-AllStored,
  deliver_all-Collects,
}

module _ {D : Type 0} {db : Database D} {codec : Codec SignedData} (law : IsDatabase db)
    (code : IsCodec codec) where
  on_interpreted-same :
      (s : Delivery D) (m : Reply (ℕ × ℕ))
      → s.registered ≡ false
      → LastIs m s.interpreted
      → on_interpreted s m ≡ served s
  on_interpreted-same s (returned (round, consumed)) off last =
      ap (λ (n : ℕ). served (record s { interpreted = n; registered = false })) last
      ∙ ap (λ b. served (record s { registered = b })) (sym off)
  on_interpreted-same s (failed key_not_found) off last =
      ap (λ (n : ℕ). served (record s { interpreted = n; registered = false })) (sym last)
      ∙ ap (λ b. served (record s { registered = b })) (sym off)
  on_interpreted-same s (failed db_closed) off last = elim last [ ]
  on_interpreted-same s (failed bad_message) off last = elim last [ ]
  on_interpreted-same s (failed (bad_key e)) off last = elim last [ ]
  on_interpreted-same s crashed off last = elim last [ ]

  on_acknowledged-AckIs :
      (m : Reply ℕ) (ack : ℕ) (next : ℕ → Served D)
      → AckIs m ack
      → on_acknowledged m next ≡ next ack
  on_acknowledged-AckIs (returned a) ack next is = ap next is
  on_acknowledged-AckIs (failed key_not_found) ack next is = ap next (sym is)
  on_acknowledged-AckIs (failed db_closed) ack next is = elim is [ ]
  on_acknowledged-AckIs (failed bad_message) ack next is = elim is [ ]
  on_acknowledged-AckIs (failed (bad_key e)) ack next is = elim is [ ]
  on_acknowledged-AckIs crashed ack next is = elim is [ ]

  replay_rounds-log :
      (n : ℕ) (log : List Round) (s : Delivery D)
      → s.store.closed ≡ false
      → Follows n log
      → All (HasRound law code s.store.content) log
      → replay_rounds db codec (length log) (n + 1) s
        ≡ served (record s { calls = s.calls ++ map call_of log })
  unfolding replay_rounds
  replay_rounds-log n [] s is_open follow has =
      ap (λ l. served (record s { calls = l })) (sym (append-nil s.calls))
  replay_rounds-log n (r ∷ log) s is_open follow has =
      let got : get_interpreted db codec s.store (n + 1) ≡ returned r.1 =
        ap (get_interpreted db codec s.store) (sym follow.0)
        ∙ get_interpreted-HasRound law code s.store r is_open has.0 in
      let s1 : Delivery D = record s { calls = s.calls ++ ((n + 1, r.1) ∷ []) } in
      rw got (
        replay_rounds-log (n + 1) log s1 is_open follow.4 has.1
        ∙ ap (λ l. served (record s { calls = l }))
            (append_assoc s.calls ((n + 1, r.1) ∷ []) (map call_of log)
              ∙ ap (λ (k : ℕ). s.calls ++ ((k, r.1) ∷ map call_of log)) (sym follow.0)))

  register-log :
      (ack : ℕ) (log : List Round) (s : Delivery D)
      → IsIdle law code ack log s
      → IsU64 (s.interpreted + 1)
      → register db codec s
        ≡ served (record s { registered = true; calls = s.calls ++ map call_of log })
  unfolding register
  register-log ack log s idle fits =
      let first : add_u64 ack 1 ≡ ack + 1 = omega (arith, idle.reached) in
      let no_wrap : (add_u64 s.interpreted 1 == 0) ≡ false = ground arith in
      let turns : s.interpreted + 1 - add_u64 ack 1 ≡ length log = omega (arith, idle.reached) in
      rw idle.unregistered (
        on_acknowledged-AckIs (get_deliver_acknowledged db s.store) ack _ idle.acked
        ∙ ap
            (λ (k : ℕ).
              replay_rounds db codec k (add_u64 ack 1) (record s { registered = true })
              >>= after_last)
            turns
        ∙ ap
            (λ (k : ℕ).
              replay_rounds db codec (length log) k (record s { registered = true }) >>= after_last)
            first
        ∙ ap (λ o. o >>= after_last)
            (replay_rounds-log ack log (record s { registered = true }) idle.is_open idle.follow
              idle.logged)
        ∙ rw no_wrap refl)

  callback-calls :
      (s : Delivery D) (store' : BlockStore D) (r : Round)
      → s.registered ≡ true
      → Records law code s.store store' r
      → Stored law code s.store.content r.0.blocks r.1
      → blockmania_callback db codec s r.0
        ≡ served (record s { store = store'; calls = s.calls ++ (call_of r ∷ []) })
  unfolding blockmania_callback
  callback-calls s store' r on rec there =
      rw
        (
          rec.returns,
          on,
          get_blocks-Stored law code store' r.0.blocks r.1 rec.still_open
              (rec.blocks r.0.blocks r.1 there),
        )
        refl

  deliver_all-calls :
      (n : ℕ) (rs : List Round) (s : Delivery D)
      → s.store.closed ≡ false
      → s.registered ≡ true
      → Follows n rs
      → AllStored law code s.store rs
      → (s' : Delivery D) × (deliver_all db codec s (rounds_of rs) ≡ served s')
        × (s'.calls ≡ s.calls ++ map call_of rs)
  unfolding deliver_all
  deliver_all-calls n [] s is_open on follow there = (s, refl, sym (append-nil s.calls))
  deliver_all-calls n (r ∷ rs) s is_open on follow there =
      let (store', rec) =
        set_interpreted-Records law code s.store r is_open (subst IsU64 (sym follow.0) follow.1)
          follow.2 follow.3 there.0 in
      let s1 : Delivery D = record s { store = store'; calls = s.calls ++ (call_of r ∷ []) } in
      let (s2, rest, calls) =
        deliver_all-calls (n + 1) rs s1 rec.still_open on follow.4
          (Records-AllStored law code s.store store' r rs rec there.1) in
      (
        s2,
        rw (callback-calls s store' r on rec there.0) rest,
        calls ∙ append_assoc s.calls (call_of r ∷ []) (map call_of rs),
      )

  -- The rounds of one run up to a restart, the rest of them behind the registration.
  abbrev pub rounds_and_restart : Delivery D → List Round → List Round → Served D
  rounds_and_restart s before after = deliver_all db codec s (rounds_of before) >>= λ s1.
      restart db s1 >>= λ s2.
      register db codec s2 >>= λ s3. deliver_all db codec s3 (rounds_of after)

  -- Rounds come from the interpreter one after the other, from the one after the last acknowledged and
  -- interpreted round on, and their numbers, and of each what it consumed and how many blocks it has, fit
  -- 64 bits, and so does the one after those before the restart. No callback is registered, the store is open and has their blocks. Then some of them may
  -- come before the process is started again, and the callback is registered only then: no call ends the
  -- process, and the callback is called for every round just once, in order, with the blocks of the
  -- round in the order of the delivery, those from before the restart included.
  pub rounds_and_restart-calls :
      (s : Delivery D) (before after : List Round)
      → s.store.closed ≡ false
      → s.registered ≡ false
      → IsU64 (s.interpreted + length before + 1)
      → AckIs (get_deliver_acknowledged db s.store) s.interpreted
      → LastIs (get_last_interpreted db s.store) s.interpreted
      → Follows s.interpreted before
      → Follows (s.interpreted + length before) after
      → AllStored law code s.store before
      → AllStored law code s.store after
      → (s' : Delivery D) × (rounds_and_restart s before after ≡ served s')
        × (s'.calls ≡ s.calls ++ (map call_of before ++ map call_of after))
  unfolding restart
  rounds_and_restart-calls s before after is_open off fits acked last first next there there' =
      let ack = s.interpreted in
      let idle : IsIdle law code ack [] s = record {
        is_open = is_open;
        unregistered = off;
        reached = omega arith;
        acked = acked;
        last = last;
        follow = tt;
        logged = tt;
      } in
      let (s1, c) = deliver_all-Collects law code ack [] before s idle first there in
      let same =
        on_interpreted-same s1 (get_last_interpreted db s1.store) c.idle.unregistered c.idle.last in
      let registered = register-log ack before s1 c.idle (omega (arith, c.idle.reached)) in
      let s3 : Delivery D = record s1 {
        registered = true;
        calls = s1.calls ++ map call_of before;
      } in
      let (s4, more, calls) =
        deliver_all-calls (ack + length before) after s3 c.idle.is_open refl next
          (c.kept after there') in
      (
        s4,
        rw (c.returns, same, registered) more,
        calls
            ∙ ap (λ l. (l ++ map call_of before) ++ map call_of after) c.calls
            ∙ append_assoc s.calls (map call_of before) (map call_of after),
      )
