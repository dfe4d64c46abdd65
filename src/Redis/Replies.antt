-- ===== src/Redis/Replies.antt =====
-- What is sent as a command, and what is read from a reply.
use mathlib.Core.Option
use apk.Base.{suc, true, false, Option, none, some, List, [], ◌∷◌, ◌++◌, ◌==◌}
use apk.Base.Text.{Str}
use apk.Std.Decimal.{to_string}
use apk.Std.Stoi.{ℤ, pos, negsuc}
use apk.Redis.{Reply, string, status, integer, array, other}

-- The text up to its first zero byte, which is what c_str() hands on.
unfoldable pub c_str : Str → Str
c_str [] = []
c_str (c ∷ s) = elim (c == 0) [ true ↦ [] | false ↦ c ∷ c_str s ]

abbrev pub print_int : ℤ → Str
print_int (pos n) = to_string n
print_int (negsuc n) = b'-' ∷ to_string (suc n)

abbrev pub text_or_empty : Option Str → Str
text_or_empty none = []
text_or_empty (some s) = s

-- The switch of send_command.
unfoldable pub reply_text : Reply → Str
reply_text (string s) = text_or_empty s
reply_text (status s) = text_or_empty s
reply_text (integer n) = print_int n
reply_text (array []) = []
reply_text (array (e ∷ es)) = text_or_empty e
reply_text other = []

abbrev pub reply_or_empty : Option Reply → Str
reply_or_empty none = []
reply_or_empty (some r) = reply_text r

-- The texts of an array, without its null pointers.
unfoldable pub texts : List (Option Str) → List Str
texts [] = []
texts (none ∷ es) = texts es
texts (some s ∷ es) = s ∷ texts es

abbrev pub reply_texts : Option Reply → List Str
reply_texts (some (array es)) = texts es
reply_texts reply = []

-- The loop of hgetall, two elements to a round; `none` is a read behind the last one.
unfoldable pub pairs : List (Option Str) → Option (List (Str × Str))
pairs [] = some []
pairs (none ∷ []) = some []
pairs (some f ∷ []) = none
pairs (none ∷ v ∷ es) = pairs es
pairs (some f ∷ none ∷ es) = pairs es
pairs (some f ∷ some v ∷ es) = Option.map (λ ps. (f, v) ∷ ps) (pairs es)

abbrev pub reply_pairs : Option Reply → Option (List (Str × Str))
reply_pairs (some (array es)) = pairs es
reply_pairs reply = some []

-- " v" for each value.
unfoldable pub spaced : List Str → Str
spaced [] = []
spaced (v ∷ vs) = b' ' ∷ (v ++ spaced vs)
