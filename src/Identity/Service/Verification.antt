-- ===== src/Identity/Service/Verification.antt =====
-- backend/identity/verification.go: single-use tokens that prove a contact channel.
use motivra.Prelude.{
  ℕ, ◌+◌, ◌-◌, Bool, true, false, not, ◌&&◌, ◌||◌, [], ◌∷◌, Option, none, some, ltb, if◌then◌else◌,
}
use motivra.Prelude.Text.{Text}
use motivra.Prelude.Ascii.{to_lower, trim_space}
use motivra.Prelude.Exec.{◌>>=◌, ◌>>◌, gets, pure, require, check, recode}
use motivra.Identity.World.{
  Uuid, User, VerificationChannel, is_valid_channel, VerificationToken, AuditAction, AuditObject,
  Metadata, Field, IdentityError, invalid_verification_token, resend_cooldown, resend_limit,
  validation, is_set, is_blank, Action, fresh_id, when_missing, unless_missing,
}
use motivra.Identity.Store.Users.{get_user_by_email}
use motivra.Identity.Store.Tokens.{
  create_verification_token, get_verification_token_by_hash, consume_verification_token,
  verification_token_stats,
}
use motivra.Identity.Issuer.{VerificationEcho, new_opaque_token}
use motivra.Identity.Service.{IdentityService, audit}

abbrev issued_action : Bool → AuditAction
issued_action resent =
    if resent then AuditAction.verification_resent else AuditAction.verification_issued

-- The token and its expiry. `resent` is the test `via == "resend"`.
unfoldable pub issue_verification_token :
    IdentityService → Uuid → VerificationChannel → Bool → Action (Text × ℕ)
unfolding create_verification_token audit new_opaque_token
issue_verification_token s user_id channel resent = do
  raw ← new_opaque_token
  now ← gets (λ w. w.clock)
  id ← fresh_id
  create_verification_token (record {
    id = id;
    user_id = user_id;
    channel = channel;
    token_hash = s.issuer.token_hash raw;
    expires_at = now + s.token_ttl;
    consumed_at = none;
    created_at = 0;
  })
  audit user_id (issued_action resent) (AuditObject.user user_id)
      (Metadata.issued channel (now + s.token_ttl))
  pure (raw, now + s.token_ttl)

abbrev when_consumed : IdentityError → IdentityError
when_consumed IdentityError.token_consumed = invalid_verification_token
when_consumed e = e

abbrev pub unused : VerificationToken → Bool
unused t = not (is_set t.consumed_at)

unfoldable pub verify : IdentityService → Text → Action VerificationChannel
unfolding get_verification_token_by_hash consume_verification_token audit
verify s raw_token = do
  require (not (is_blank (trim_space raw_token))) (validation (Field.token ∷ []))
  token ←
      recode (when_missing invalid_verification_token)
        (get_verification_token_by_hash (s.issuer.token_hash (trim_space raw_token)))
  require (unused token) invalid_verification_token
  check (λ w. ltb w.clock token.expires_at) invalid_verification_token
  now ← gets (λ w. w.clock)
  recode when_consumed (consume_verification_token token.id token.user_id token.channel now)
  audit token.user_id AuditAction.verification_verified (AuditObject.user token.user_id)
      (Metadata.verified token.channel)
  pure token.channel

abbrev pub default_channel : VerificationChannel → VerificationChannel
default_channel (VerificationChannel.other []) = VerificationChannel.email
default_channel c = c

-- No token is needed: the channel is verified, or the account has no phone.
abbrev pub needs_none : VerificationChannel → User → Bool
needs_none VerificationChannel.email u = is_set u.email_verified_at
needs_none VerificationChannel.phone u = is_blank u.phone || is_set u.phone_verified_at
needs_none _ u = false

abbrev cooling : Option ℕ → ℕ → ℕ → Bool
cooling none cooldown now = false
cooling (some latest) cooldown now = ltb 0 cooldown && ltb now (latest + cooldown)

-- 24 hours
abbrev pub resend_window : ℕ
resend_window = 86400000000000

abbrev echo_of : Bool → VerificationChannel → Text → ℕ → Option VerificationEcho
echo_of dev_echo channel raw expires_at =
    if dev_echo
    then some (record { channel = channel; token = raw; expires_at = expires_at })
    else none

-- The part after the account was found to need a token.
unfoldable pub resend_to :
    IdentityService
    → User
    → VerificationChannel
    → Action (VerificationChannel × Option VerificationEcho)
unfolding verification_token_stats issue_verification_token
resend_to s user channel = do
  now ← gets (λ w. w.clock)
  (count, latest) ← verification_token_stats user.id channel (now - resend_window)
  require (not (cooling latest s.resend_cooldown now)) resend_cooldown
  require (ltb count s.resend_limit) resend_limit
  (raw, expires_at) ← issue_verification_token s user.id channel true
  pure (channel, echo_of s.dev_echo channel raw expires_at)

-- An unknown email is answered as an account that needs no token.
abbrev pub resend_found :
    IdentityService
    → Option User
    → VerificationChannel
    → Action (VerificationChannel × Option VerificationEcho)
resend_found s none channel = pure (channel, none)
resend_found s (some user) channel =
    if needs_none channel user then pure (channel, none) else resend_to s user channel

unfoldable pub resend_verification :
    IdentityService
    → Text
    → VerificationChannel
    → Action (VerificationChannel × Option VerificationEcho)
unfolding get_user_by_email is_valid_channel resend_to unless_missing
resend_verification s email channel = do
  require (not (is_blank (trim_space email))) (validation (Field.email ∷ []))
  require (is_valid_channel (default_channel channel)) (validation (Field.channel ∷ []))
  found ← unless_missing (get_user_by_email (to_lower (trim_space email)))
  resend_found s found (default_channel channel)
