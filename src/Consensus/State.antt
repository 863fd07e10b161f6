-- ===== src/Consensus/State.antt =====
-- The interpreter's state for one block (blockmania/state.go). Clones of a state have maps of their
-- own, but for the `map[uint64]string` under a `ViewChanged` key, which they share.
use blockmania.Prelude.{
  ℕ, ◌-◌, not, List, [], ◌∷◌, Option, none, some, Map, find, put, keep, map, ltb, leb,
  if◌then◌else◌, maybe, ◌>>=◌, ℕ_discrete, Key, Outcome, ok, fault, wrong_type,
}
use blockmania.Consensus.Block.{Hash}
use blockmania.Consensus.Messages.{Message, PrePrepare, node_round, pre_prepare_key}
use blockmania.Consensus.StateData.{
  StateData, StateValue, number, text, flag, message, changes, view, get_round, state_data_key,
}
use blockmania.Consensus.Bitset
use blockmania.Consensus.Bitset.{Bitset, new_bitset}

-- `nodeRound`.
pub record NodeRound : Type 0 where
  pub node : ℕ
  pub round : ℕ

unfoldable pub NodeRound-discrete : Discrete NodeRound
unfolding ℕ_discrete
NodeRound-discrete = hlevel ℕ_discrete

instance abbrev pub node_round_key : Key NodeRound
node_round_key = record { same = NodeRound-discrete }

-- `timeout`.
pub record Timeout : Type 0 where
  pub node : ℕ
  pub round : ℕ
  pub view : ℕ

pub record State : Type 0 where
  pub bitsets : Map PrePrepare Bitset
  pub kv : Map StateData StateValue
  pub delay : Map ℕ ℕ
  pub final : Map NodeRound Hash
  pub out : List Message
  pub timeout : ℕ
  pub timeouts : Map ℕ (List Timeout)

-- `&state{timeouts: map[uint64][]timeout{}}`.
abbrev pub fresh : State
fresh = record {
  bitsets = [];
  kv = [];
  delay = [];
  final = [];
  out = [];
  timeout = 0;
  timeouts = [];
}

-- The loop of `clone` over the messages.
unfoldable pub keep_messages : ℕ → List Message → List Message
keep_messages minround [] = []
keep_messages minround (m ∷ ms) =
    if ltb (node_round m).1 minround
    then keep_messages minround ms
    else m ∷ keep_messages minround ms

-- `clone_bitsets` makes `v.clone()` of each bitset.
unfoldable pub clone_bitsets : Map PrePrepare Bitset → Map PrePrepare Bitset
clone_bitsets m = map (λ (k, b). (k, Bitset.clone b)) m

-- `clone`, where `none` is the nil state.
-- The lists of time-outs are independent of those of the first state. The
-- slices of the code share their arrays: an append to one may overwrite what was appended to another.
unfoldable pub clone : Option State → ℕ → State
unfolding keep keep_messages clone_bitsets Bitset.clone
clone none minround = fresh
clone (some s) minround = record {
  bitsets = clone_bitsets (keep (λ k. not (ltb k.round minround)) s.bitsets);
  kv = keep (λ k. not (ltb (get_round k) minround)) s.kv;
  delay = s.delay;
  final = keep (λ k. not (ltb k.round minround)) s.final;
  out = keep_messages minround s.out;
  timeout = s.timeout;
  timeouts = keep (λ k. not (ltb k minround)) s.timeouts;
}

-- `getBitset`: the proposal's bitset, and the state that has it.
unfoldable pub get_bitset : State → ℕ → PrePrepare → State × Bitset
get_bitset s size pp = elim (find pp s.bitsets) [
  | none ↦ let b = new_bitset size in (record s { bitsets = put pp b s.bitsets }, b)
  | some b ↦ (s, b)
]

-- A write through the pointer that `getBitset` returns.
unfoldable pub set_bitset : State → PrePrepare → Bitset → State
set_bitset s pp b = record s { bitsets = put pp b s.bitsets }

-- `getOutput`, where `none` is the nil state.
abbrev pub get_output : Option State → List Message
get_output none = []
get_output (some s) = s.out

-- `val.(uint32)` and `val.(string)`: a value of another type is a panic.
abbrev pub as_number : StateValue → Outcome ℕ
as_number (number n) = ok n
as_number (text h) = fault wrong_type
as_number (flag b) = fault wrong_type
as_number (message m) = fault wrong_type
as_number (changes a) = fault wrong_type

abbrev pub as_text : StateValue → Outcome Hash
as_text (text h) = ok h
as_text (number n) = fault wrong_type
as_text (flag b) = fault wrong_type
as_text (message m) = fault wrong_type
as_text (changes a) = fault wrong_type

abbrev pub as_changes : StateValue → Outcome ℕ
as_changes (changes a) = ok a
as_changes (number n) = fault wrong_type
as_changes (flag b) = fault wrong_type
as_changes (message m) = fault wrong_type
as_changes (text h) = fault wrong_type

abbrev pub put_kv : StateData → StateValue → State → State
put_kv k v s = record s { kv = put k v s.kv }

-- `getView`: a missing view is 0, and is written.
unfoldable pub get_view : State → ℕ → ℕ → Outcome (State × ℕ)
get_view s node round =
    maybe (find (view node round) s.kv) (ok (put_kv (view node round) (number 0) s, 0))
      (λ val. as_number val >>= λ v. ok (s, v))

-- `diff`.
unfoldable pub diff : ℕ → ℕ → ℕ
diff a b = if leb b a then a - b else b - a
