-- ===== src/Broadcast/Load/Restarted.antt =====
-- A node that stops after a block and starts again.
use blockmania.Prelude.{ℕ, List, some, Map, find, nat_key, true, ◌≡◌, refl, sym, subst, ◌∙◌}
use blockmania.Broadcast.Wire.{SignedData, Codec, IsCodec}
use blockmania.Broadcast.Database.{Database, IsDatabase}
use blockmania.Broadcast.Cache.{ReceivedInfo}
use blockmania.Broadcast.Replies.{returned}
use blockmania.Broadcast.Depgraph.{BlockData}
use blockmania.Broadcast.Store.{get_last_round_data}
use blockmania.Broadcast.Replay.{get_not_included}
use blockmania.Broadcast.Checks.{Crypto}
use blockmania.Broadcast.Generate.{Author, gen_block}
use blockmania.Broadcast.Generate.Accepted.{IsAuthor, gen_block-IsGenerated}
use blockmania.Broadcast.Load.{
  Loaded, load_last, load_interpreted, load_received, load_sent, load_values, with_state,
  load_state,
}

some-injective : {A : Type 0} (a b : A) → some a ≡ some b → a ≡ b
some-injective a b e = cc

module _ {K : Type 0} (crypto : Crypto K) (sign : List ℕ → List ℕ) (keys : Map ℕ K) {D : Type 0}
    (db : Database D) (codec : Codec SignedData) where
  -- The store knows the author's last block.
  record IsKept (a : Author D) : Type 0 where
    ref : SignedData
    last :
        get_last_round_data db codec a.service.store ≡ returned (a.service.round, a.prevhash, ref)
    reference : a.prevref ≡ some ref
    author : IsAuthor crypto sign keys a

  -- The second author goes on where the first one stopped.
  pub record IsRestarted (a b : Author D) : Type 0 where
    pub round : b.service.round ≡ a.service.round
    pub prevhash : b.prevhash ≡ a.prevhash
    pub prevref : b.prevref ≡ a.prevref
    pub author : IsAuthor crypto sign keys b

  load_state-IsRestarted :
      (a : Author D) (peers : List ℕ) (interpreted consumed : ℕ) (received : Map ℕ ReceivedInfo)
      (sent : Map ℕ ℕ) (infos : List BlockData)
      → IsKept a
      → load_interpreted db a.service.store ≡ some (interpreted, consumed)
      → load_received db peers a.service.store ≡ some received
      → load_sent db peers a.service.store ≡ some sent
      → get_not_included crypto db codec a.service.store ≡ returned infos
      → (l : Loaded) × (b : Author D) × (load_state db codec crypto peers a ≡ some (l, b))
        × IsRestarted a b
  unfolding load_state load_values load_last
  load_state-IsRestarted a peers interpreted consumed received sent infos h hi hr hs hn =
      let l : Loaded = record {
        round = a.service.round;
        prevhash = a.prevhash;
        prevref = some h.ref;
        interpreted = interpreted;
        consumed = consumed;
        received = received;
        sent = sent;
      } in
      (
        l,
        with_state db codec a l infos,
        rw (h.last, hi, hr, hs, hn) refl,
        record {
          round = refl;
          prevhash = refl;
          prevref = sym h.reference;
          author = record {
            fits = h.author.fits;
            is_open = h.author.is_open;
            last = λ later. sym h.reference ∙ h.author.last later;
            queue = tt;
          };
        },
      )

  -- If a node stops after a turn of `genBlocks`, and the rest of its store can be read, `loadState`
  -- succeeds: the node goes on from the round, the hash and the signed reference of that block, and its
  -- next turn of `genBlocks` can rely on what the last one did.
  pub load_state-gen_block :
      IsDatabase db
      → IsCodec codec
      → IsCodec crypto.refs
      → IsCodec crypto.blocks
      → (a a' : Author D) (key : K) (peers : List ℕ) (interpreted consumed : ℕ)
        (received : Map ℕ ReceivedInfo) (sent : Map ℕ ℕ) (infos : List BlockData)
      → IsAuthor crypto sign keys a
      → find a.node keys ≡ some key
      → ((m : List ℕ) → crypto.verify key m (sign m) ≡ true)
      → gen_block crypto sign db codec a ≡ some a'
      → load_interpreted db a'.service.store ≡ some (interpreted, consumed)
      → load_received db peers a'.service.store ≡ some received
      → load_sent db peers a'.service.store ≡ some sent
      → get_not_included crypto db codec a'.service.store ≡ returned infos
      → (l : Loaded) × (b : Author D) × (load_state db codec crypto peers a' ≡ some (l, b))
        × IsRestarted a' b
  load_state-gen_block law code refs_code blocks_code a a' key peers interpreted consumed received
        sent infos h known key_signs made hi hr hs hn =
      let (b, taken, done, g, again) =
        gen_block-IsGenerated crypto sign keys law code refs_code blocks_code a key h known
          key_signs in
      let kept : IsKept b = record {
        ref = _;
        last = g.last;
        reference = g.reference;
        author = again;
      } in
      load_state-IsRestarted a' peers interpreted consumed received sent infos
        (subst IsKept (some-injective b a' (sym done ∙ made)) kept) hi hr hs hn
