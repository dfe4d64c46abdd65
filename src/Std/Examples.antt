-- ===== src/Std/Examples.antt =====
-- Runs of stoi.
use apk.Base.{◌≡◌, refl, none, some}
use apk.Base.Text.{lit}
use apk.Std.Stoi.{pos, negsuc, stoi}

stoi_examples :
    (stoi 10 (lit " 8080x") ≡ some (pos 8080))
    × (stoi 16 (lit "0x") ≡ some (pos 0))
    × (stoi 16 (lit "0xfG") ≡ some (pos 15))
    × (stoi 10 (lit "-12") ≡ some (negsuc 11))
    × (stoi 10 (lit "2147483648") ≡ none)
    × (stoi 10 (lit "port") ≡ none)
unfolding stoi
stoi_examples = (refl, refl, refl, refl, refl, refl)
