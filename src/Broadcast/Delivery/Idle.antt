-- ===== src/Broadcast/Delivery/Idle.antt =====
-- The rounds that come while no callback is registered.
use blockmania.Prelude.{
  ℕ, ◌+◌, ◌<◌, List, [], ◌∷◌, ◌++◌, map, length, length-append, false, ◌≡◌, refl, sym, subst, ◌∙◌,
  All, All-append, IsU64, arith,
}
use mathlib.Core.List.{append_assoc, append-nil}
use blockmania.Consensus.Block.{Interpreted}
use blockmania.Broadcast.Wire.{SignedData, Codec, IsCodec}
use blockmania.Broadcast.Database.{Database, IsDatabase}
use blockmania.Broadcast.Replies.{
  Reply, returned, failed, crashed, key_not_found, db_closed, bad_message, bad_key,
}
use blockmania.Broadcast.Store.{BlockStore, get_last_interpreted, get_deliver_acknowledged}
use blockmania.Broadcast.Store.Rounds.{Stored}
use blockmania.Broadcast.Delivery.{Delivery, served, blockmania_callback, deliver_all}
use blockmania.Broadcast.Delivery.Logged.{Round, HasRound, Records, set_interpreted-Records}

-- The rounds follow a round, one after the other.
abbrev pub Follows : ℕ → List Round → Type 0
Follows n [] = Unit {0}
Follows n (r ∷ rs) =
    (r.0.round ≡ n + 1)
    × IsU64 (n + 1)
    × IsU64 r.0.consumed
    × IsU64 (length r.0.blocks)
    × Follows (n + 1) rs

Follows-append :
    (n : ℕ) (rs : List Round) (r : Round)
    → Follows n rs
    → Follows (n + length rs) (r ∷ [])
    → Follows n (rs ++ (r ∷ []))
Follows-append n [] r h k = subst (λ (z : ℕ). Follows z (r ∷ [])) (omega arith) k
Follows-append n (q ∷ rs) r h k = (
  h.0,
  h.1,
  h.2,
  h.3,
  Follows-append (n + 1) rs r h.4 (subst (λ (z : ℕ). Follows z (r ∷ [])) (omega arith) k),
)

-- What the acknowledged and the last interpreted round are read as.
abbrev pub AckIs : Reply ℕ → ℕ → Type 0
AckIs (returned ack) n = ack ≡ n
AckIs (failed key_not_found) n = n ≡ 0
AckIs (failed db_closed) n = ⊥
AckIs (failed bad_message) n = ⊥
AckIs (failed (bad_key e)) n = ⊥
AckIs crashed n = ⊥

abbrev pub LastIs : Reply (ℕ × ℕ) → ℕ → Type 0
LastIs (returned (round, consumed)) n = round ≡ n
LastIs (failed key_not_found) n = n ≡ 0
LastIs (failed db_closed) n = ⊥
LastIs (failed bad_message) n = ⊥
LastIs (failed (bad_key e)) n = ⊥
LastIs crashed n = ⊥

-- The call of the callback for a round.
abbrev pub call_of : Round → ℕ × List SignedData
call_of r = (r.0.round, r.1)

abbrev pub rounds_of : List Round → List Interpreted
rounds_of rs = map (λ r. r.0) rs

module _ {D : Type 0} {db : Database D} {codec : Codec SignedData} (law : IsDatabase db)
    (code : IsCodec codec) where
  -- No callback is registered, the round `ack` is acknowledged and the log has the rounds since.
  pub record IsIdle (ack : ℕ) (log : List Round) (s : Delivery D) : Type 0 where
    pub is_open : s.store.closed ≡ false
    pub unregistered : s.registered ≡ false
    pub reached : s.interpreted ≡ ack + length log
    pub acked : AckIs (get_deliver_acknowledged db s.store) ack
    pub last : LastIs (get_last_interpreted db s.store) s.interpreted
    pub follow : Follows ack log
    pub logged : All (HasRound law code s.store.content) log

  abbrev pub AllStored : BlockStore D → List Round → Type 0
  AllStored s rs = All (λ r. Stored law code s.content r.0.blocks r.1) rs

  pub Records-AllStored :
      (s s' : BlockStore D) (r : Round) (rs : List Round)
      → Records law code s s' r
      → AllStored s rs
      → AllStored s' rs
  Records-AllStored s s' r [] rec h = tt
  Records-AllStored s s' r (q ∷ rs) rec h =
      (rec.blocks q.0.blocks q.1 h.0, Records-AllStored s s' r rs rec h.1)

  Records-logged :
      (s s' : BlockStore D) (r : Round) (n : ℕ) (log : List Round)
      → Records law code s s' r
      → Follows n log
      → n + length log < r.0.round
      → All (HasRound law code s.content) log
      → All (HasRound law code s'.content) log
  Records-logged s s' r n [] rec follow above h = tt
  Records-logged s s' r n (q ∷ log) rec follow above h = (
    rec.others q (subst IsU64 (sym follow.0) follow.1) (λ e. omega (arith, follow.0)) h.0,
    Records-logged s s' r (n + 1) log rec follow.4 (omega arith) h.1,
  )

  -- A round that comes before there is a callback.
  callback-IsIdle :
      (ack : ℕ) (log : List Round) (s : Delivery D) (r : Round)
      → IsIdle ack log s
      → Follows s.interpreted (r ∷ [])
      → Stored law code s.store.content r.0.blocks r.1
      → (s' : Delivery D) × (blockmania_callback db codec s r.0 ≡ served s')
        × IsIdle ack (log ++ (r ∷ [])) s'
        × (s'.calls ≡ s.calls)
        × Records law code s.store s'.store r
  unfolding blockmania_callback
  callback-IsIdle ack log s r idle next there =
      let (store', rec) =
        set_interpreted-Records law code s.store r idle.is_open (subst IsU64 (sym next.0) next.1)
          next.2 next.3 there in
      let above : ack + length log < r.0.round = omega (arith, idle.reached, next.0) in
      let s' : Delivery D = record s { store = store'; interpreted = r.0.round } in
      (
        s',
        rw (rec.returns, idle.unregistered) refl,
        record {
          is_open = rec.still_open;
          unregistered = idle.unregistered;
          reached = omega (arith, idle.reached, next.0, length-append {0} log (r ∷ []));
          acked = subst (λ a. AckIs a ack) (sym rec.ack) idle.acked;
          last = subst (λ a. LastIs a r.0.round) (sym rec.last) refl;
          follow =
              Follows-append ack log r idle.follow
                (subst (λ (z : ℕ). Follows z (r ∷ [])) idle.reached next);
          logged =
              All-append (HasRound law code store'.content) log (r ∷ [])
                (Records-logged s.store store' r ack log rec idle.follow above idle.logged)
                (rec.has, tt);
        },
        refl,
        rec,
      )

  -- What a list of rounds leaves that comes before there is a callback.
  pub record Collects (ack : ℕ) (log rs : List Round) (s s' : Delivery D) : Type 0 where
    pub returns : deliver_all db codec s (rounds_of rs) ≡ served s'
    pub idle : IsIdle ack (log ++ rs) s'
    pub calls : s'.calls ≡ s.calls
    pub kept : (qs : List Round) → AllStored s.store qs → AllStored s'.store qs

  pub deliver_all-Collects :
      (ack : ℕ) (log rs : List Round) (s : Delivery D)
      → IsIdle ack log s
      → Follows s.interpreted rs
      → AllStored s.store rs
      → (s' : Delivery D) × Collects ack log rs s s'
  unfolding deliver_all
  deliver_all-Collects ack log [] s idle next there = (
    s,
    record {
      returns = refl;
      idle = subst (λ l. IsIdle ack l s) (sym (append-nil log)) idle;
      calls = refl;
      kept = λ qs h. h;
    },
  )
  deliver_all-Collects ack log (r ∷ rs) s idle next there =
      let (s1, one, idle1, calls1, rec) =
        callback-IsIdle ack log s r idle (next.0, next.1, next.2, next.3, tt) there.0 in
      let up : s.interpreted + 1 ≡ s1.interpreted =
        omega (arith, idle.reached, idle1.reached, length-append {0} log (r ∷ [])) in
      let (s2, c) =
        deliver_all-Collects ack (log ++ (r ∷ [])) rs s1 idle1
          (subst (λ (z : ℕ). Follows z rs) up next.4)
          (Records-AllStored s.store s1.store r rs rec there.1) in
      (
        s2,
        record {
          returns = rw one c.returns;
          idle = subst (λ l. IsIdle ack l s2) (append_assoc log (r ∷ []) rs) c.idle;
          calls = c.calls ∙ calls1;
          kept = λ qs h. c.kept qs (Records-AllStored s.store s1.store r qs rec h);
        },
      )
