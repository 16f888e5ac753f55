-- ===== src/Identity/Rotation/Refresh.antt =====
-- What a refresh that returned has read and written.
use motivra.Prelude.{◌≡◌, refl, sym, ap, ◌∙◌, true, not, some, ltb}
use motivra.Prelude.Text.{Text}
use motivra.Prelude.Exec.Runs.{
  Returns, bind-Returns, require-Returns, check-Returns, recode-Returns, pure-Returns,
}
use motivra.Identity.World.{User, Session, is_blank, IdentityWorld}
use motivra.Identity.Store.Sessions.{find_hash, is_live}
use motivra.Identity.Issuer.{Issuer, AccessResponse, check_session, check_refresh, rotate, refresh}
use motivra.Identity.Evolution.{Evolving}
use motivra.Identity.Evolution.Service.{issue_session-Calm, check_session-Calm}
use motivra.Identity.Rotation.{
  run-Evolving, Holds, Spent, evolve-Holds, evolve-Spent, revoke_session-Spent, get_session-Returns,
}

-- The session that the checks of a refresh have found.
pub record Checked (i : Issuer) (token : Text) (s : Session) (t : IdentityWorld) : Type 0 where
  pub held : Holds (i.token_hash token) s.id t
  pub some_token : not (is_blank token) ≡ true
  pub live : is_live s ≡ true

-- The tests change no value: the session is the one that was found, and it is live and in time.
pub record Passed (s : Session) (p : Session × User) (w : IdentityWorld) : Type 0 where
  pub same : p.0 ≡ s
  pub live : is_live s ≡ true
  pub idle : ltb w.clock s.expires_at ≡ true
  pub absolute : ltb w.clock s.absolute_expires_at ≡ true

check_session-Returns :
    (i : Issuer) (s : Session) (w : IdentityWorld) (p : Session × User) (t : IdentityWorld)
    → Returns (check_session i s) w p t
    → Passed s p w
unfolding check_session
check_session-Returns i s w p t r =
    let c = bind-Returns _ _ w p t r in
    let d = bind-Returns _ _ c.between p t c.second in
    let e = bind-Returns _ _ d.between p t d.second in
    let f = bind-Returns _ _ e.between p t e.second in
    let g = bind-Returns _ _ f.between p t f.second in
    let k = bind-Returns _ _ g.between p t g.second in
    let live = require-Returns _ _ w c.value c.between c.first in
    let idle = check-Returns _ _ c.between d.value d.between d.first in
    let absolute = check-Returns _ _ d.between e.value e.between e.first in
    record {
      same = ap (λ q. q.0) (pure-Returns _ k.between p t k.second).0;
      live = live.0;
      idle = ap (λ v. ltb v.clock s.expires_at) (sym live.1) ∙ idle.0;
      absolute = ap (λ v. ltb v.clock s.absolute_expires_at) (sym (idle.1 ∙ live.1)) ∙ absolute.0;
    }

module _ (i : Issuer) (token : Text) where
  pub check_refresh-Returns :
      (w : IdentityWorld) (p : Session × User) (t : IdentityWorld)
      → Returns (check_refresh i token) w p t
      → Checked i token p.0 t
  unfolding check_refresh
  check_refresh-Returns w p t r =
      let a = bind-Returns _ _ w p t r in
      let b = bind-Returns _ _ a.between p t a.second in
      let passed = check_session-Returns i b.value b.between p t b.second in
      let later : Evolving b.between t =
        run-Evolving _ b.between p t b.second (check_session-Calm i b.value) in
      let found : find_hash (i.token_hash token) b.between.sessions ≡ some b.value =
        get_session-Returns (i.token_hash token) a.between b.value b.between
          (recode-Returns _ _ a.between b.value b.between b.first) in
      rw passed.same (record {
        held =
            evolve-Holds (i.token_hash token) b.value.id b.between t later
              (record { row = b.value; found = found; same = refl });
        some_token = (require-Returns _ _ w a.value a.between a.first).0;
        live = passed.live;
      })

  pub rotate-Returns :
      (s : Session) (u : User) (w : IdentityWorld) (r : AccessResponse) (t : IdentityWorld)
      → Holds (i.token_hash token) s.id w
      → Returns (rotate i s u) w r t
      → Spent (i.token_hash token) t
  unfolding rotate
  rotate-Returns s u w r t h run =
      let a = bind-Returns _ _ w r t run in
      evolve-Spent (i.token_hash token) a.between t
        (run-Evolving _ a.between r t a.second
          (issue_session-Calm i u s.device_name s.ip_address (some s.absolute_expires_at)))
        (revoke_session-Spent (i.token_hash token) s.id w a.value a.between h a.first)

  -- A refresh that returned has a token that is not empty, and leaves its session revoked.
  pub refresh-Spent :
      (w : IdentityWorld) (r : AccessResponse × Session) (t : IdentityWorld)
      → Returns (refresh i token) w r t
      → (not (is_blank token) ≡ true) × Spent (i.token_hash token) t
  unfolding refresh
  refresh-Spent w r t run =
      let a = bind-Returns _ _ w r t run in
      let b = bind-Returns _ _ a.between r t a.second in
      let checked = check_refresh-Returns w a.value a.between a.first in
      let end : t ≡ b.between = (pure-Returns _ b.between r t b.second).1 in
      (
        checked.some_token,
        rw end
            (rotate-Returns a.value.0 a.value.1 a.between b.value b.between checked.held b.first),
      )
