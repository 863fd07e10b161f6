-- ===== src/Consensus/Messages.antt =====
-- The messages that a block implies (blockmania/messages/).
use blockmania.Prelude.{ℕ, ℕ_discrete, Key}
use blockmania.Consensus.Block.{Hash}

pub record PrePrepare : Type 0 where
  pub hash : Hash
  pub node : ℕ
  pub round : ℕ
  pub view : ℕ

pub record Prepare : Type 0 where
  pub hash : Hash
  pub node : ℕ
  pub round : ℕ
  pub sender : ℕ
  pub view : ℕ

pub record Commit : Type 0 where
  pub hash : Hash
  pub node : ℕ
  pub round : ℕ
  pub sender : ℕ
  pub view : ℕ

pub record ViewChange : Type 0 where
  pub hash : Hash
  pub node : ℕ
  pub round : ℕ
  pub sender : ℕ
  pub view : ℕ

pub record NewView : Type 0 where
  pub hash : Hash
  pub node : ℕ
  pub round : ℕ
  pub sender : ℕ
  pub view : ℕ

-- The interface `Message`, by the types that implement it.
pub data Message : Type 0 where
  pre_prepare : PrePrepare → Message
  prepare : Prepare → Message
  commit : Commit → Message
  view_change : ViewChange → Message
  new_view : NewView → Message

pub data MessageKind : Type 0 where
  unknown_msg pre_prepare_msg prepare_msg commit_msg view_changed_msg new_view_msg : MessageKind

unfoldable pub PrePrepare-discrete : Discrete PrePrepare
unfolding ℕ_discrete
PrePrepare-discrete = hlevel ℕ_discrete

unfoldable pub Message-discrete : Discrete Message
unfolding ℕ_discrete
Message-discrete = hlevel ℕ_discrete

instance abbrev pub pre_prepare_key : Key PrePrepare
pre_prepare_key = record { same = PrePrepare-discrete }

instance abbrev pub message_key : Key Message
message_key = record { same = Message-discrete }

-- `Message.Kind`.
abbrev pub kind : Message → MessageKind
kind (pre_prepare m) = pre_prepare_msg
kind (prepare m) = prepare_msg
kind (commit m) = commit_msg
kind (view_change m) = view_changed_msg
kind (new_view m) = new_view_msg

-- `Message.NodeRound`.
abbrev pub node_round : Message → ℕ × ℕ
node_round (pre_prepare m) = (m.node, m.round)
node_round (prepare m) = (m.node, m.round)
node_round (commit m) = (m.node, m.round)
node_round (view_change m) = (m.node, m.round)
node_round (new_view m) = (m.node, m.round)

-- `Prepare.Pre` and `Commit.Pre`: the proposal that is voted on.
abbrev pub prepare_pre : Prepare → PrePrepare
prepare_pre m = record { hash = m.hash; node = m.node; round = m.round; view = m.view }

abbrev pub commit_pre : Commit → PrePrepare
commit_pre m = record { hash = m.hash; node = m.node; round = m.round; view = m.view }
