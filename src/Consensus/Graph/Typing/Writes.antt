-- ===== src/Consensus/Graph/Typing/Writes.antt =====
-- What keeps the values of a state typed.
use blockmania.Prelude.{
  ℕ, ◌≤◌, ◌≡◌, refl, ap, subst, sym, ◌∙◌, arith, find, find-put, find-keep, none, some, ite,
  if◌then◌else◌, true, false, Bool, Option, ◌⊎◌, inl, inr, Asserts, Asserts-bind, Asserts-maybe,
}
use blockmania.Consensus.Messages.{PrePrepare}
use blockmania.Consensus.StateData.{
  StateData, StateData-discrete, StateValue, number, view, final, hnv, prepared, pre_prepared,
  view_changed, state_data_key,
}
use blockmania.Consensus.Bitset.{Bitset}
use blockmania.Consensus.State.{
  State, Timeout, put_kv, get_bitset, set_bitset, get_view, clone, fresh, as_number,
}
use blockmania.Consensus.Graph.Interpret.{put_kv_new, has_key, add_timeout}
use blockmania.Consensus.Graph.Typing.{HasType, IsTyped}

HasType-mono :
    (n m : ℕ) (k : StateData) (val : StateValue) → n ≤ m → HasType n k val → HasType m k val
HasType-mono n m (final a r) val h t = t
HasType-mono n m (hnv a r v) val h t = t
HasType-mono n m (prepared a r v) val h t = t
HasType-mono n m (pre_prepared a r v) val h t = t
HasType-mono n m (view a r) val h t = t
HasType-mono n m (view_changed a r v) val h (p, small, e) = (p, omega arith, e)

pub IsTyped-mono : (n m : ℕ) (s : State) → n ≤ m → IsTyped n s → IsTyped m s
IsTyped-mono n m s h t = λ k val e. HasType-mono n m k val h (t k val e)

some-injective {ℓ} : {A : Type ℓ} (a b : A) → some a ≡ some b → a ≡ b
some-injective a b e = cc

-- What is found after a write: the value that was written, or one that was there.
pub put_case :
    {A K : Type 0} (d : Dec K) (val w : A) (o : Option A)
    → ite d (some val) o ≡ some w
    → (K × (val ≡ w)) ⊎ (o ≡ some w)
put_case (yes same) val w o e = inl (same, some-injective val w e)
put_case (no other) val w o e = inr e

kept {ℓ} :
    {A : Type ℓ} (b : Bool) (o : Option A) (a : A) → (if b then o else none) ≡ some a → o ≡ some a
kept true o a e = e
kept false o a e = cc

-- Both branches have the property.
pub either : (P : State → Type 0) (b : Bool) (s s' : State) → P s → P s' → P (if b then s else s')
either P true s s' t t' = t
either P false s s' t t' = t'

get_bitset-kv : (s : State) (size : ℕ) (pp : PrePrepare) → (get_bitset s size pp).0.kv ≡ s.kv
unfolding get_bitset
get_bitset-kv s size pp = ground arith

module _ (n : ℕ) where
  -- The data of the second state are those of the first.
  pub same-IsTyped : (s s' : State) → s'.kv ≡ s.kv → IsTyped n s → IsTyped n s'
  same-IsTyped s s' e t = λ k val there. t k val (ap (find k) (sym e) ∙ there)

  pub put_kv-IsTyped :
      (k : StateData) (val : StateValue) (s : State)
      → HasType n k val
      → IsTyped n s
      → IsTyped n (put_kv k val s)
  put_kv-IsTyped k val s good t j w there =
      elim (put_case (StateData-discrete k j) val w (find j s.kv)
        (sym (find-put k j val s.kv) ∙ there)) [
          | inl (same, e) ↦ subst (λ z. HasType n z w) same (subst (HasType n k) e good)
          | inr old ↦ t j w old
        ]

  pub put_kv_new-IsTyped :
      (k : StateData) (val : StateValue) (s : State)
      → HasType n k val
      → IsTyped n s
      → IsTyped n (put_kv_new k val s)
  put_kv_new-IsTyped k val s good t =
      either (IsTyped n) (has_key k s) s (put_kv k val s) t (put_kv-IsTyped k val s good t)

  -- The data after a vote.
  pub voted-IsTyped :
      (s : State) (size : ℕ) (pp : PrePrepare) (b : Bitset)
      → IsTyped n s
      → IsTyped n (set_bitset (get_bitset s size pp).0 pp b)
  unfolding set_bitset
  voted-IsTyped s size pp b =
      same-IsTyped s (set_bitset (get_bitset s size pp).0 pp b) (get_bitset-kv s size pp)

  pub add_timeout-IsTyped :
      (tval : ℕ) (t : Timeout) (s : State) → IsTyped n s → IsTyped n (add_timeout tval t s)
  unfolding add_timeout
  add_timeout-IsTyped tval t s = same-IsTyped s (add_timeout tval t s) refl

  pub fresh-IsTyped : IsTyped n fresh
  unfolding find
  fresh-IsTyped k val e = cc

  pub clone-IsTyped :
      (o : Option State) (minround : ℕ)
      → ((s : State) → o ≡ some s → IsTyped n s)
      → IsTyped n (clone o minround)
  unfolding clone
  clone-IsTyped none minround t = fresh-IsTyped
  clone-IsTyped (some s) minround t =
      λ k val e. t s refl k val (kept _ (find k s.kv) val (sym (find-keep _ k s.kv) ∙ e))

  -- `val.(uint32)` of a view.
  pub as_number-Asserts :
      (node round : ℕ) (val : StateValue)
      → HasType n (view node round) val
      → Asserts (as_number val) (λ v. Unit)
  as_number-Asserts node round val (v, e) = rw e tt

  pub get_view-Asserts :
      (s : State) (node round : ℕ)
      → IsTyped n s
      → Asserts (get_view s node round) (λ r. IsTyped n r.0)
  unfolding get_view
  get_view-Asserts s node round t =
      Asserts-maybe (find (view node round) s.kv) _ _ (λ r. IsTyped n r.0)
        (λ _. put_kv-IsTyped (view node round) (number 0) s (0, refl) t)
        λ val there.
          Asserts-bind (as_number val) _ (λ v. Unit) (λ r. IsTyped n r.0)
            (as_number-Asserts node round val (t (view node round) val there)) (λ v _. t)
