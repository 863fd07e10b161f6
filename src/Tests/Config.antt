-- ===== src/Tests/Config.antt =====
-- Concrete sizes.
use blockmania.Prelude.{some, ◌≡◌, arith}
use blockmania.Config.ByteSize.{marshal, unmarshal}
use blockmania.Config.ByteSize.Written.{unmarshal-marshal}

-- Three megabytes over a default of seven bytes.
unmarshal-marshal_example : unmarshal 7 (marshal 3145728) ≡ some 3145728
unmarshal-marshal_example = unmarshal-marshal 7 3145728 (omega arith)
