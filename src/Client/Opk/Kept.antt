-- ===== src/Client/Opk/Kept.antt =====
-- `Refresh` of client/client.go: the refresh token that a client keeps.
use openpubkey.Base.{Result, ok, wrap_err, wrap_err-eq-ok, ◌≡◌, ◌≢◌, refl, [], Option, none, some}
use openpubkey.Base.{continue_cases}
use openpubkey.Base.Bytes.{Bytes}
use openpubkey.PkToken.Token.{PkToken}
use openpubkey.Client.Opk.{Tokens, OpkClient, ClientEnv, keep, refreshed, refresh_with, refresh}

-- a refresh token that is not empty
abbrev pub IsGiven : Option Bytes → Type 0
IsGiven o = (t : Bytes) × (o ≡ some t) × (t ≢ [])

-- A provider that answers a refresh token which is not empty with such a token.
abbrev pub Renews : (Bytes → Result Tokens) → Type 0
Renews f = (r : Bytes) → r ≢ [] → (t : Tokens) → f r ≡ ok t → IsGiven t.refresh_token

module _ {Key Signer : Type 0} (env : ClientEnv Key Signer) where
  refreshed-IsGiven :
      (f : Bytes → Result Tokens) (held : Option Bytes) (pkt : Option PkToken)
      (o : OpkClient Key Signer)
      → Renews f
      → IsGiven held
      → IsGiven o.refresh_token
      → IsGiven (refreshed env f held pkt o).1.refresh_token
  unfolding refreshed keep
  refreshed-IsGiven f none pkt o renews held given = given
  refreshed-IsGiven f (some r) none o renews held given = given
  refreshed-IsGiven f (some r) (some p) o renews (t, same, full) given =
      continue_cases (λ x. IsGiven x.1.refresh_token) (wrap_err _ (f r)) o _ (λ e. given) given
        (λ a h. renews r (λ e. full (cc (same, e))) a (wrap_err-eq-ok _ _ h))

  refresh_with-IsGiven :
      (f : Option (Bytes → Result Tokens)) (o : OpkClient Key Signer)
      → ((g : Bytes → Result Tokens) → f ≡ some g → Renews g)
      → IsGiven o.refresh_token
      → IsGiven (refresh_with env f o).1.refresh_token
  unfolding refresh_with
  refresh_with-IsGiven none o renews given = given
  refresh_with-IsGiven (some g) o renews given =
      refreshed-IsGiven g o.refresh_token o.pk_token o (renews g refl) given given

  -- Refresh leaves a client that has a refresh token with one, whether it succeeds or fails.
  pub refresh-IsGiven :
      (o : OpkClient Key Signer)
      → ((g : Bytes → Result Tokens) → o.op.refresh_tokens ≡ some g → Renews g)
      → IsGiven o.refresh_token
      → IsGiven (refresh env o).1.refresh_token
  unfolding refresh
  refresh-IsGiven o = refresh_with-IsGiven o.op.refresh_tokens o
