-- ===== src/Broadcast/Replies.antt =====
-- What a method of the store comes to.
use blockmania.Lexinum.{Decoded, value, error, panic, DecodeError}

-- `errDBClosed`, `badger.ErrKeyNotFound`, an error of `proto.Unmarshal` and one of `lexinum.Decode`.
pub data StoreError : Type 0 where
  db_closed key_not_found bad_message : StoreError
  bad_key : DecodeError → StoreError

-- `crashed` is a run-time panic or a call of `log.Fatal`.
pub data Reply (A : Type 0) : Type 0 where
  returned : A → Reply A
  failed : StoreError → Reply A
  crashed : Reply A

infixl 5 ◌>>=◌
abbrev pub ◌>>=◌ : {A B : Type 0} → Reply A → (A → Reply B) → Reply B
crashed >>= next = crashed
failed reason >>= next = failed reason
returned a >>= next = next a

abbrev pub of_decoded : {A : Type 0} → Decoded A → Reply A
of_decoded (value a) = returned a
of_decoded (error e) = failed (bad_key e)
of_decoded panic = crashed
