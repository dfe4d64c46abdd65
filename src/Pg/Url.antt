-- ===== src/Pg/Url.antt =====
-- The address of the database always has a connect_timeout.
use apk.Base.{ℕ, ◌≡◌, ◌≢◌, refl, none, some, ◌++◌, Option-cases, inl, inr}
use apk.Base.Text.{Str, lit}
use apk.Std.Search.{starts_with, find_text, find_text-append}
use apk.Pg.{connect_url}

pair : find_text (lit "connect_timeout") (lit "connect_timeout=5") ≡ some 0
unfolding find_text starts_with
pair = refl

some_no_none : (i : ℕ) → some i ≢ none
some_no_none i h = absurd (cc)

-- Whatever address is given, the one that is used has a connect_timeout; an address that has one
-- already is used as it is.
connect_url-connect_timeout :
    (url : Str)
    → (find_text (lit "connect_timeout") (connect_url url) ≢ none)
      × (find_text (lit "connect_timeout") url ≢ none → connect_url url ≡ url)
unfolding connect_url
connect_url-connect_timeout url = elim (Option-cases (find_text (lit "connect_timeout") url)) [
  | inl e ↦ (
    rw (connect_url, e)
        (find_text-append (lit "connect_timeout") (url ++ _) (lit "connect_timeout=5")
          (rw pair (some_no_none 0))),
    λ h. absurd (h e),
  )
  | inr (i, e) ↦ (rw (connect_url, e, e) (some_no_none i), λ h. rw (connect_url, e) refl)
]
