-- ===== src/Std/Decimal.antt =====
-- std::to_string of an unsigned number.
use apk.Base.{ℕ, zero, suc, ◌+◌, ◌/◌, ◌%◌, [], ◌∷◌, ◌++◌, ltb, if◌then◌else◌}
use apk.Base.Text.{Str}

unfoldable pub decimal : ℕ → ℕ → Str
decimal zero n = []
decimal (suc digits) n =
    let front = decimal digits (n / 10) in
    if ltb n 10 then (n + 48) ∷ [] else front ++ ((n % 10 + 48) ∷ [])

-- Twenty digits are enough for 64 bits.
unfoldable pub to_string : ℕ → Str
unfolding decimal
to_string n = decimal 20 n
