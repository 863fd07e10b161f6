-- ===== src/Consensus/Graph/Typing.antt =====
-- The types of the values that the interpreter keeps under `interface{}` (blockmania/state.go, the
-- field `data`): each kind of key has values of one type, and a map that a value refers to is one
-- that was allocated.
pub mod Writes
pub mod Deliveries
pub mod Steps
pub mod Replies
pub mod Answers
pub mod Runs
use blockmania.Prelude.{ℕ, ◌<◌, ◌≡◌, length, find, some, true}
use blockmania.Consensus.Block.{Hash, BlockId, block_id_key}
use blockmania.Consensus.Messages.{PrePrepare}
use blockmania.Consensus.StateData.{
  StateData, StateValue, number, text, flag, message, changes, view, final, hnv, prepared,
  pre_prepared, view_changed, state_data_key,
}
use blockmania.Consensus.State.{State}
use blockmania.Consensus.Graph.{Graph}

-- The type of the values under a key, with `size` maps allocated. Nothing is under a `Final` key.
abbrev pub HasType : ℕ → StateData → StateValue → Type 0
HasType size (final n r) val = ⊥
HasType size (hnv n r v) val = val ≡ flag true
HasType size (prepared n r v) val = (h : Hash) × (val ≡ text h)
HasType size (pre_prepared n r v) val = (m : PrePrepare) × (val ≡ message m)
HasType size (view n r) val = (v : ℕ) × (val ≡ number v)
HasType size (view_changed n r v) val = (a : ℕ) × (a < size) × (val ≡ changes a)

abbrev pub IsTyped : ℕ → State → Type 0
IsTyped size s = (k : StateData) (val : StateValue) → find k s.kv ≡ some val → HasType size k val

-- The states of all blocks.
abbrev pub AllTyped : ℕ → Graph → Type 0
AllTyped size g = (b : BlockId) (s : State) → find b g.statess ≡ some s → IsTyped size s

-- A graph and the state that is being computed.
pub record AreTyped (g : Graph) (s : State) : Type 0 where
  pub state : IsTyped (length g.heap) s
  pub graph : AllTyped (length g.heap) g
