-- ===== src/Consensus/Graph/Interpret/Memory.antt =====
-- What a state does not forget, and how the writes to it keep that.
use blockmania.Prelude.{
  ℕ, ◌≤◌, ◌≡◌, ◌≢◌, refl, ap, arith, find, put, none, some, true, false, find-put, find-put_ne,
  maybe, if_ind, nat_key,
}
use blockmania.Consensus.Block.{Hash}
use blockmania.Consensus.Messages.{PrePrepare}
use blockmania.Consensus.StateData.{
  StateData, StateValue, number, text, flag, message, changes, view, final, state_data_key,
}
use blockmania.Consensus.Bitset.{Bitset}
use blockmania.Consensus.State.{
  State, NodeRound, Timeout, node_round_key, put_kv, get_bitset, set_bitset,
}
use blockmania.Consensus.Graph.Interpret.{has_key, add_timeout, put_kv_new}

abbrev pub view_number : StateValue → ℕ
view_number (number n) = n
view_number (text h) = 0
view_number (flag b) = 0
view_number (message m) = 0
view_number (changes a) = 0

-- The view of a node and a round; a missing one is 0.
abbrev pub view_of : ℕ → ℕ → State → ℕ
view_of node round s = maybe (find (view node round) s.kv) 0 view_number

-- What lasts from a state to a later one: keys stay, a final hash stays, no key of type `Final` comes
-- up, and views do not fall.
pub record Lasts (s s' : State) : Type 0 where
  pub keys : (k : StateData) → has_key k s ≡ true → has_key k s' ≡ true
  pub finals : (nr : NodeRound) (h : Hash) → find nr s.final ≡ some h → find nr s'.final ≡ some h
  pub no_final :
      (node round : ℕ)
      → has_key (final node round) s ≡ false
      → has_key (final node round) s' ≡ false
  pub views : (node round : ℕ) → view_of node round s ≤ view_of node round s'

pub Lasts-refl : (s : State) → Lasts s s
Lasts-refl s = record {
  keys = λ k h. h;
  finals = λ nr h e. e;
  no_final = λ n r h. h;
  views = λ n r. omega arith;
}

pub Lasts-trans : {a b c : State} → Lasts a b → Lasts b c → Lasts a c
Lasts-trans x y = record {
  keys = λ k h. y.keys k (x.keys k h);
  finals = λ nr h e. y.finals nr h (x.finals nr h e);
  no_final = λ n r h. y.no_final n r (x.no_final n r h);
  views = λ n r. omega (arith, x.views n r, y.views n r);
}

-- A write elsewhere: to the bitsets or the time-outs.
same-Lasts : (s s' : State) → s'.kv ≡ s.kv → s'.final ≡ s.final → Lasts s s'
same-Lasts s s' k f = record {
  keys = λ j h. rw k h;
  finals = λ nr h e. rw f e;
  no_final = λ n r h. rw k h;
  views = λ n r. rw k (omega arith);
}

-- A write of a key that is neither `Final` nor `View`.
pub put_kv-Lasts :
    (k : StateData) (val : StateValue) (s : State)
    → ((n r : ℕ) → k ≢ final n r)
    → ((n r : ℕ) → k ≢ view n r)
    → Lasts s (put_kv k val s)
put_kv-Lasts k val s not_final not_view = record {
  keys = λ j h. ground (arith, find-put k j val s.kv);
  finals = λ nr h e. e;
  no_final = λ n r h. ground (arith, find-put_ne k (final n r) val s.kv (not_final n r));
  views = λ n r. ground (arith, find-put_ne k (view n r) val s.kv (not_view n r));
}

pub view_of-put_kv :
    (k : StateData) (val : StateValue) (s : State) (node round : ℕ)
    → k ≢ view node round
    → view_of node round (put_kv k val s) ≡ view_of node round s
view_of-put_kv k val s node round other =
    ap (λ o. maybe o 0 view_number) (find-put_ne k (view node round) val s.kv other)

-- A write of a view that does not fall.
pub put_view-Lasts :
    (node round v : ℕ) (s : State)
    → view_of node round s ≤ v
    → Lasts s (put_kv (view node round) (number v) s)
put_view-Lasts node round v s up = record {
  keys = λ j h. ground (arith, find-put (view node round) j (number v) s.kv);
  finals = λ nr h e. e;
  no_final =
      λ n r h. ground (arith, find-put_ne (view node round) (final n r) (number v) s.kv (λ e. cc));
  views = λ n r. ground (arith, find-put (view node round) (view n r) (number v) s.kv);
}

-- The first final hash of a node and a round.
pub put_final-Lasts :
    (nr : NodeRound) (hash : Hash) (s : State)
    → find nr s.final ≡ none
    → Lasts s (record s { final = put nr hash s.final })
put_final-Lasts nr hash s new = record {
  keys = λ j h. h;
  finals = λ j h e. ground (arith, find-put nr j hash s.final);
  no_final = λ n r h. h;
  views = λ n r. omega arith;
}

pub set_bitset-Lasts : (s : State) (pp : PrePrepare) (b : Bitset) → Lasts s (set_bitset s pp b)
unfolding set_bitset
set_bitset-Lasts s pp b = same-Lasts s _ refl refl

pub get_bitset-Lasts : (s : State) (size : ℕ) (pp : PrePrepare) → Lasts s (get_bitset s size pp).0
unfolding get_bitset
get_bitset-Lasts s size pp = same-Lasts s _ (ground arith) (ground arith)

pub add_timeout-Lasts : (tval : ℕ) (t : Timeout) (s : State) → Lasts s (add_timeout tval t s)
unfolding add_timeout
add_timeout-Lasts tval t s = same-Lasts s _ refl refl

pub put_kv_new-Lasts :
    (k : StateData) (val : StateValue) (s : State)
    → ((n r : ℕ) → k ≢ final n r)
    → ((n r : ℕ) → k ≢ view n r)
    → Lasts s (put_kv_new k val s)
put_kv_new-Lasts k val s not_final not_view =
    if_ind (Lasts s) (has_key k s) s (put_kv k val s) (Lasts-refl s)
      (put_kv-Lasts k val s not_final not_view)
