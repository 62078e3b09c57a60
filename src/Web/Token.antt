-- ===== src/Web/Token.antt =====
-- `BearerToken` and `bearerExpirationTime` of internal/webserver/webserver.go: the proxy's own
-- token, which is read again from its file once it has expired. Times are seconds.
use capsule_proxy.Prelude.{ℕ, String, Option, none, some, ltb, if◌then◌else◌, ◌≤◌, ◌≡◌, arith}

pub record TokenState : Type 0 where
  pub bearer_token : String
  pub expiration_time : ℕ

-- `exp` stands for the parser of the token: the number of its claim `exp`, if there is one.
module _ (exp : String → Option ℕ) where
  unfoldable pub bearer_expiration_time : String → ℕ
  bearer_expiration_time token = elim (exp token) [ none ↦ 0 | some n ↦ n ]

  -- `file` is what `os.ReadFile` returns, the empty text where it fails.
  unfoldable pub refresh : ℕ → String → TokenState → TokenState
  unfolding bearer_expiration_time
  refresh now file n =
      if ltb n.expiration_time now
      then record { bearer_token = file; expiration_time = bearer_expiration_time file }
      else n

  -- The stored time is that of the stored token.
  abbrev pub IsInSync : TokenState → Type 0
  IsInSync n = n.expiration_time ≡ bearer_expiration_time n.bearer_token

  -- A read of the token keeps the stored time in step with the stored token, and where the file
  -- holds a token that has not expired, the token that is used has not expired either.
  refresh-IsInSync :
      (now : ℕ) (file : String) (n : TokenState)
      → IsInSync n
      → now ≤ bearer_expiration_time file
      → IsInSync (refresh now file n)
        × (now ≤ bearer_expiration_time (refresh now file n).bearer_token)
  unfolding refresh
  refresh-IsInSync now file n h fresh = ground arith
