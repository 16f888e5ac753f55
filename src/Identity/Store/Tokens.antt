-- ===== src/Identity/Store/Tokens.antt =====
-- The verification tokens in backend/identity/store.go.
use motivra.Prelude.{
  ℕ, Bool, true, false, not, ◌&&◌, List, [], ◌∷◌, Option, none, some, leb, ltb, ◌==◌, if◌then◌else◌,
  nat_eq,
}
use motivra.Prelude.Text.{Text, text_eq, text-Eq}
use motivra.Prelude.Order.{where_rows, count_rows}
use motivra.Prelude.Exec.{◌>>◌, gets, find_or_raise, require, check, modify}
use motivra.Prelude.Table.{find, update}
use motivra.Identity.World.{
  Uuid, User, VerificationChannel, is_valid_channel, VerificationToken, missing, token_consumed,
  database, token_exists, is_set, Action, round_trip,
}
use motivra.Identity.Store.Users.{user_id, find_user}

abbrev pub token_id : VerificationToken → Uuid
token_id t = t.id

abbrev pub token_hash : VerificationToken → Text
token_hash t = t.token_hash

abbrev pub find_token : Uuid → List VerificationToken → Option VerificationToken
find_token = find token_id

abbrev pub find_token_hash : Text → List VerificationToken → Option VerificationToken
find_token_hash = find token_hash

abbrev pub new_token : VerificationToken → ℕ → VerificationToken
new_token t now = record t { consumed_at = none; created_at = now }

unfoldable pub create_verification_token : VerificationToken → Action (Unit {0})
unfolding is_valid_channel
create_verification_token t = do
  round_trip database
  require (is_valid_channel t.channel) database
  check (λ w. not (is_set (find_token t.id w.tokens))) token_exists
  check (λ w. not (is_set (find_token_hash t.token_hash w.tokens))) token_exists
  check (λ w. is_set (find_user t.user_id w.users)) database
  modify (λ w. record w { tokens = new_token t w.clock ∷ w.tokens })

unfoldable pub get_verification_token_by_hash : Text → Action VerificationToken
get_verification_token_by_hash hash = do
  round_trip database
  find_or_raise (λ w. find_token_hash hash w.tokens) missing

abbrev pub unconsumed : Option VerificationToken → Bool
unconsumed none = false
unconsumed (some t) = not (is_set t.consumed_at)

abbrev pub consume_at : ℕ → VerificationToken → VerificationToken
consume_at at t = record t { consumed_at = some at }

-- `AND email_verified_at IS NULL`: the first time stays.
abbrev pub verify_email : ℕ → User → User
verify_email at u =
    if is_set u.email_verified_at
    then u
    else record u { email_verified_at = some at; updated_at = at }

abbrev pub verify_phone : ℕ → User → User
verify_phone at u =
    if is_set u.phone_verified_at
    then u
    else record u { phone_verified_at = some at; updated_at = at }

abbrev pub verify_user : VerificationChannel → ℕ → User → User
verify_user VerificationChannel.email at u = verify_email at u
verify_user VerificationChannel.phone at u = verify_phone at u
verify_user (VerificationChannel.other _) at u = u

-- A channel of another name rolls the transaction back.
unfoldable pub consume_verification_token :
    Uuid → Uuid → VerificationChannel → ℕ → Action (Unit {0})
unfolding is_valid_channel
consume_verification_token id owner channel at = do
  round_trip database
  check (λ w. unconsumed (find_token id w.tokens)) token_consumed
  require (is_valid_channel channel) database
  modify (λ w. record w {
    tokens = update token_id id (consume_at at) w.tokens;
    users = update user_id owner (verify_user channel at) w.users;
  })

abbrev pub channel_eq : VerificationChannel → VerificationChannel → Bool
channel_eq VerificationChannel.email VerificationChannel.email = true
channel_eq VerificationChannel.phone VerificationChannel.phone = true
channel_eq (VerificationChannel.other s) (VerificationChannel.other t) = text_eq s t
channel_eq _ _ = false

abbrev pub later_of : Option ℕ → ℕ → Option ℕ
later_of none t = some t
later_of (some s) t = some (if ltb s t then t else s)

-- max(created_at)
unfoldable pub latest_creation : Option ℕ → List VerificationToken → Option ℕ
latest_creation m [] = m
latest_creation m (t ∷ ts) = latest_creation (later_of m t.created_at) ts

abbrev pub tokens_of : Uuid → VerificationChannel → List VerificationToken → List VerificationToken
tokens_of id channel = where_rows (λ t. t.user_id == id && channel_eq t.channel channel)

-- `none` is the zero time.
unfoldable pub verification_token_stats : Uuid → VerificationChannel → ℕ → Action (ℕ × Option ℕ)
unfolding latest_creation
verification_token_stats id channel since = do
  round_trip database
  gets (λ w. (
    count_rows (λ t. leb since t.created_at) (tokens_of id channel w.tokens),
    latest_creation none (tokens_of id channel w.tokens),
  ))
