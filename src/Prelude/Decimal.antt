-- ===== src/Prelude/Decimal.antt =====
-- Python's `str` of a number, as f-strings use it. A number below 10 ^ fuel has at most that many
-- digits, and n < 10 ^ n for the fuel that `decimal` gives.
use Prim.Native.Nat.{ℕ, zero, suc, ◌/◌, ◌%◌}
use Prim.Native.String.{String, ◌++◌, slice}
use oneiroi.Prelude.Tests.{ltb, if◌then◌else◌}

abbrev pub digit : ℕ → String
digit n = slice "0123456789" n (suc n)

unfoldable pub decimal_upto : ℕ → ℕ → String
decimal_upto zero n = digit (n % 10)
decimal_upto (suc fuel) n =
    let front = decimal_upto fuel (n / 10) in if ltb n 10 then digit n else front ++ digit (n % 10)

unfoldable pub decimal : ℕ → String
unfolding decimal_upto
decimal n = decimal_upto n n
