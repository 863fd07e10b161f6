-- ===== src/Broadcast/Service/Handled.antt =====
-- What is in the store once a list of blocks was handled.
use blockmania.Prelude.{
  ℕ, List, [], ◌∷◌, suc, get_elem?, take, some, false, Map, ◌⊎◌, inl, inr, ◌≡◌, refl, All, ap, sym,
  ◌∙◌,
}
use mathlib.Core.List.{Memᴰ}
use mathlib.Core.List.Memᴰ.{head, tail}
use blockmania.Consensus.Block.{BlockId}
use blockmania.Broadcast.Keys.{included_key}
use blockmania.Broadcast.Replies.{returned}
use blockmania.Broadcast.Wire.{SignedData, Codec, IsCodec}
use blockmania.Broadcast.Database.{Database, IsDatabase}
use blockmania.Broadcast.Depgraph.{BlockData}
use blockmania.Broadcast.Store.{BlockStore, get_block}
use blockmania.Broadcast.Store.Growing.{
  IsKnown, IsCoherent, Adds, Extends, set_block-Extends, Extends-refl, Extends-trans,
}
use blockmania.Broadcast.Checks.{Crypto, Reason, Verdict, accepted, rejected, check_block}
use blockmania.Broadcast.Service.{
  Service, Answer, ack, refused, taken, after_block, take_block, process_signed, broadcast_from,
  handle_broadcast_list,
}

Verdict-cases :
    {A : Type 0} (v : Verdict A)
    → ((a : A) × (v ≡ accepted a)) ⊎ ((reason : Reason) × (v ≡ rejected reason))
Verdict-cases (accepted a) = inl (a, refl)
Verdict-cases (rejected reason) = inr (reason, refl)

module _ {D : Type 0} {db : Database D} {codec : Codec SignedData} (law : IsDatabase db)
    (code : IsCodec codec) where
  module _ {K : Type 0} (crypto : Crypto K) (keys : Map ℕ K) where
    -- The block passes every check, and the store has an entry for its identifier.
    pub record IsStored (s : BlockStore D) (signed : SignedData) : Type 0 where
      pub info : BlockData
      pub checked : check_block crypto keys signed ≡ accepted info
      pub entry : IsKnown law code s info.id

    -- The store reads, under the identifier, a block of the list that passes the checks with this
    -- identifier.
    pub record IsWritten (s : BlockStore D) (blocks : List SignedData) (j : BlockId) : Type 0 where
      pub signed : SignedData
      pub listed : Memᴰ signed blocks
      pub info : BlockData
      pub checked : check_block crypto keys signed ≡ accepted info
      pub named : included_key info.id ≡ included_key j
      pub reads : get_block db codec s j ≡ returned signed

    -- What has an entry had one before, or it is from the list.
    abbrev pub OnlyAdds : BlockStore D → BlockStore D → List SignedData → Type 0
    OnlyAdds s s' blocks =
        (j : BlockId) → IsKnown law code s' j → IsKnown law code s j ⊎ IsWritten s' blocks j

    -- The round of the last block of a list that passed the checks, or `last` if there is none.
    abbrev pub round_in : ℕ → Verdict BlockData → ℕ
    round_in last (accepted info) = info.id.round
    round_in last (rejected reason) = last

    abbrev pub last_round : ℕ → List SignedData → ℕ
    last_round last [] = last
    last_round last (block ∷ blocks) =
        last_round (round_in last (check_block crypto keys block)) blocks

    IsStored-Extends :
        (s s' : BlockStore D) (signed : SignedData)
        → Extends law code s s'
        → IsStored s signed
        → IsStored s' signed
    IsStored-Extends s s' signed h stored = record {
      info = stored.info;
      checked = stored.checked;
      entry = (h.kept stored.info.id stored.entry).0;
    }

    -- Either every block is stored and the round of the last one is acknowledged, or a block fails a
    -- check for the reason answered and the blocks before it are stored.
    pub data IsAnswer (s : BlockStore D) (last : ℕ) (blocks : List SignedData)
        : Answer → Type 0 where
      all_stored :
          (n : ℕ)
          → n ≡ last_round last blocks
          → All (IsStored s) blocks
          → IsAnswer s last blocks (ack n)
      refuses :
          (i : ℕ) (signed : SignedData) (reason : Reason)
          → get_elem? blocks i ≡ some signed
          → check_block crypto keys signed ≡ rejected reason
          → All (IsStored s) (take i blocks)
          → IsAnswer s last blocks (refused reason)

    IsAnswer-cons :
        (s : BlockStore D) (last : ℕ) (block : SignedData) (blocks : List SignedData)
        (info : BlockData) (answer : Answer)
        → check_block crypto keys block ≡ accepted info
        → IsStored s block
        → IsAnswer s info.id.round blocks answer
        → IsAnswer s last (block ∷ blocks) answer
    IsAnswer-cons s last block blocks info _ checked stored (all_stored n e others) =
        all_stored n (e ∙ ap (λ v. last_round (round_in last v) blocks) (sym checked))
          (stored, others)
    IsAnswer-cons s last block blocks info _ checked stored
          (refuses i signed reason here fails others) =
        refuses (suc i) signed reason here fails (stored, others)

    -- Behind a first block: what that block added reads as it did.
    OnlyAdds-cons :
        (s s1 s' : BlockStore D) (block : SignedData) (blocks : List SignedData) (info : BlockData)
        (is_open : s.closed ≡ false)
        → check_block crypto keys block ≡ accepted info
        → ((j : BlockId) → IsKnown law code s1 j → Adds law code s info.id block is_open s s1 j)
        → Extends law code s1 s'
        → OnlyAdds s1 s' blocks
        → OnlyAdds s s' (block ∷ blocks)
    OnlyAdds-cons s s1 s' block blocks info is_open checked first extends more j there =
        elim (more j there) [
          | inr w ↦ inr (record {
            signed = w.signed;
            listed = tail w.listed;
            info = w.info;
            checked = w.checked;
            named = w.named;
            reads = w.reads;
          })
          | inl earlier ↦ elim (first j earlier) [
            | inl old ↦ inl old
            | inr (same, reads) ↦ inr (record {
              signed = block;
              listed = head refl;
              info = info;
              checked = checked;
              named = same;
              reads = (extends.kept j earlier).1 ∙ reads;
            })
          ]
        ]

    take_block-IsStored :
        (s : Service D) (signed : SignedData) (info : BlockData) (is_open : s.store.closed ≡ false)
        → IsCoherent law code s.store
        → check_block crypto keys signed ≡ accepted info
        → (s' : Service D) × (take_block db codec s signed info ≡ taken s' info.id.round)
          × Extends law code s.store s'.store
          × ((j : BlockId)
              → IsKnown law code s'.store j
              → Adds law code s.store info.id signed is_open s.store s'.store j)
          × IsStored s'.store signed
    unfolding take_block
    take_block-IsStored s signed info is_open coherent checked =
        let (store, done, entry, extends, adds) =
          set_block-Extends law code s.store info.id signed is_open coherent in
        (
          after_block db codec s info store,
          rw done refl,
          extends,
          adds,
          record { info = info; checked = checked; entry = entry },
        )

    -- What a list of blocks leaves of the store, and the answer to it.
    pub record IsHandledList (s : BlockStore D) (last : ℕ) (blocks : List SignedData)
        (done : Service D × Answer) : Type 0 where
      pub extends : Extends law code s done.0.store
      pub adds : OnlyAdds s done.0.store blocks
      pub answer : IsAnswer done.0.store last blocks done.1

    broadcast_from-IsAnswer :
        (s : Service D) (last : ℕ) (blocks : List SignedData)
        → s.store.closed ≡ false
        → IsCoherent law code s.store
        → IsHandledList s.store last blocks (broadcast_from db codec crypto keys s last blocks)
    unfolding broadcast_from process_signed
    broadcast_from-IsAnswer s last [] is_open coherent = record {
      extends = Extends-refl law code s.store is_open coherent;
      adds = λ j there. inl there;
      answer = all_stored last refl tt;
    }
    broadcast_from-IsAnswer s last (block ∷ blocks) is_open coherent =
        elim (Verdict-cases (check_block crypto keys block)) [
          | inl (info, checked) ↦
              let (s', done, extends, adds, stored) =
                take_block-IsStored s block info is_open coherent checked in
              let further =
                broadcast_from-IsAnswer s' info.id.round blocks extends.is_open extends.coherent in
              rw (checked, done)
                (record {
                  extends = Extends-trans law code s.store s'.store _ extends further.extends;
                  adds =
                      OnlyAdds-cons s.store s'.store _ block blocks info is_open checked adds
                        further.extends further.adds;
                  answer =
                      IsAnswer-cons _ last block blocks info _ checked
                        (IsStored-Extends s'.store _ block further.extends stored) further.answer;
                })
          | inr (reason, fails) ↦ rw fails (record {
            extends = Extends-refl law code s.store is_open coherent;
            adds = λ j there. inl there;
            answer = refuses 0 block reason refl fails tt;
          })
        ]

    -- On an open store where each known block can be read, `handleBroadcastList` ends with an answer:
    -- either each block of the list passed the checks and the store has an entry for it, and the round of
    -- the last one is acknowledged (0 for no blocks), or the list is refused for the reason for which its
    -- first bad block fails them, and the store has an entry for each block before that one. The store
    -- stays open, what it knew reads as it did, and what it knows beyond that reads as a block of the list
    -- that passed the checks with this identifier.
    pub handle_broadcast_list-IsAnswer :
        (s : Service D) (blocks : List SignedData)
        → s.store.closed ≡ false
        → IsCoherent law code s.store
        → IsHandledList s.store 0 blocks (handle_broadcast_list db codec crypto keys s blocks)
    unfolding handle_broadcast_list
    handle_broadcast_list-IsAnswer s blocks is_open coherent =
        broadcast_from-IsAnswer s 0 blocks is_open coherent
