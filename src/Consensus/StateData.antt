-- ===== src/Consensus/StateData.antt =====
-- The keys of a state's key-value data (blockmania/states/), and the values that the interpreter
-- stores under them.
use blockmania.Prelude.{ℕ, Bool, ℕ_discrete, Key}
use blockmania.Consensus.Block.{Hash}
use blockmania.Consensus.Messages.{PrePrepare}

-- The interface `StateData`, by the types that implement it: a node, a round and, but for `final`
-- and `view`, a view number.
pub data StateData : Type 0 where
  final : (node round : ℕ) → StateData
  hnv : (node round view : ℕ) → StateData
  prepared : (node round view : ℕ) → StateData
  pre_prepared : (node round view : ℕ) → StateData
  view : (node round : ℕ) → StateData
  view_changed : (node round view : ℕ) → StateData

pub data StateDataKind : Type 0 where
  unknown_state final_state hnv_state prepared_state pre_prepared_state : StateDataKind
  view_state view_changed_state : StateDataKind

unfoldable pub StateData-discrete : Discrete StateData
unfolding ℕ_discrete
StateData-discrete = hlevel ℕ_discrete

instance abbrev pub state_data_key : Key StateData
state_data_key = record { same = StateData-discrete }

-- `StateData.GetRound`.
abbrev pub get_round : StateData → ℕ
get_round (final n r) = r
get_round (hnv n r v) = r
get_round (prepared n r v) = r
get_round (pre_prepared n r v) = r
get_round (view n r) = r
get_round (view_changed n r v) = r

-- `StateData.SdKind`.
abbrev pub sd_kind : StateData → StateDataKind
sd_kind (final n r) = final_state
sd_kind (hnv n r v) = hnv_state
sd_kind (prepared n r v) = prepared_state
sd_kind (pre_prepared n r v) = pre_prepared_state
sd_kind (view n r) = view_state
sd_kind (view_changed n r v) = view_changed_state

-- The values under the `interface{}`: a `uint32`, a `string`, a `bool`, a pre-prepare message, or a
-- map of hashes by sender. Such a map is a reference, which clones of a state share: it stands for
-- an address in the graph's heap.
pub data StateValue : Type 0 where
  number : ℕ → StateValue
  text : Hash → StateValue
  flag : Bool → StateValue
  message : PrePrepare → StateValue
  changes : ℕ → StateValue
