-- ===== src/Client/Auth/Session.antt =====
-- What opening and closing a session does to the token store.
use billgen.Prelude.{
  String, Bool, true, false, ◌≡◌, refl, ◌⊎◌, inl, arith, if◌then◌else◌, ◌∷◌, Option, none, some,
}
use billgen.Json.{Json, null, property, truthy, or_null}
use billgen.Client.Http.{
  HttpRequest, Fetched, State, Outcome, returned, threw, continue, clear, ◌>>=◌,
}
use billgen.Client.Request.{Call, Payload, http_request, request, set_tokens}
use billgen.Client.Request.Exchange.{Sends, request-Exchanged}
use billgen.Client.Auth.{
  tokens_of, open_session, signup_call, login_call, desktop_bootstrap_call, signup, login,
  desktop_bootstrap, logout_call, logout,
}

module _ {W : Type 0} (fetch : W → HttpRequest → Fetched × W) (base_url : String) where
  -- The session that a method opens: the tokens of its result, or those that were there.
  abbrev pub Opened : Call → State W → Outcome Payload × State W → Type 0
  Opened c s (returned p, s') =
      (v : Json) × (tokens_of p ≡ some v)
      × (s'.access ≡ or_null (property "access_token" v))
      × (s'.refresh ≡ or_null (property "refresh_token" v))
      × (s'.lost ≡ s.lost)
      × (s'.sent ≡ http_request fetch base_url null c ∷ s.sent)
  Opened c s (threw f, s') =
      (s'.access ≡ s.access)
      × (s'.refresh ≡ s.refresh)
      × (s'.lost ≡ s.lost)
      × (s'.sent ≡ http_request fetch base_url null c ∷ s.sent)

  open_call-Sends :
      (c : Call) (s : State W)
      → c.auth ≡ false
      → Sends (http_request fetch base_url null c) s (request fetch base_url c s).1
  open_call-Sends c s e = ground (arith, request-Exchanged fetch base_url c s)

  stored-Opened :
      (c : Call) (s s' : State W) (p : Payload) (tokens : Option Json)
      → tokens_of p ≡ tokens
      → Sends (http_request fetch base_url null c) s s'
      → Opened c s (continue (λ _ s''. (returned p, s'')) (set_tokens tokens s'))
  stored-Opened c s s' p none e h = ground arith
  stored-Opened c s s' p (some null) e h = ground arith
  stored-Opened c s s' p (some v) e h = (v, e, refl, refl, h.same_lost, h.logged)

  continue-Opened :
      (c : Call) (s : State W) (t : Outcome Payload × State W)
      → Sends (http_request fetch base_url null c) s t.1
      → Opened c s
          (continue (λ p s'. continue (λ _ s''. (returned p, s'')) (set_tokens (tokens_of p) s')) t)
  continue-Opened c s (threw f, s') h = ground arith
  continue-Opened c s (returned p, s') h = stored-Opened c s s' p (tokens_of p) refl h

  open_session-Opened :
      (c : Call) (s : State W) → c.auth ≡ false → Opened c s (open_session fetch base_url c s)
  unfolding open_session
  open_session-Opened c s e =
      continue-Opened c s (request fetch base_url c s) (open_call-Sends c s e)

  -- `signup`, `login` and `desktopBootstrap` send one request, which carries no bearer, never refresh
  -- and never call `onAuthLost`. Where one returns, the store holds the tokens of its result (null
  -- where a token is missing); where one throws, the store is as it was.
  pub sessions-Opened :
      (body : Json) (s : State W)
      → Opened (signup_call body) s (signup fetch base_url body s)
        × Opened (login_call body) s (login fetch base_url body s)
        × Opened desktop_bootstrap_call s (desktop_bootstrap fetch base_url s)
  unfolding signup login desktop_bootstrap
  sessions-Opened body s = (
    open_session-Opened (signup_call body) s refl,
    open_session-Opened (login_call body) s refl,
    open_session-Opened desktop_bootstrap_call s refl,
  )

  abbrev pub Closed : State W → Outcome (Unit {0}) × State W → Type 0
  Closed s (returned _, s') =
      (s'.access ≡ null)
      × (s'.refresh ≡ null)
      × (((truthy s.refresh ≡ false) × (s'.sent ≡ s.sent))
          ⊎ ((truthy s.refresh ≡ true)
              × (s'.sent ≡ http_request fetch base_url null (logout_call s.refresh) ∷ s.sent)))
  Closed s (threw f, s') =
      (truthy s.refresh ≡ true)
      × (s'.access ≡ s.access)
      × (s'.refresh ≡ s.refresh)
      × (s'.sent ≡ http_request fetch base_url null (logout_call s.refresh) ∷ s.sent)

  continue-Closed :
      (s : State W) (t : Outcome Payload × State W)
      → truthy s.refresh ≡ true
      → Sends (http_request fetch base_url null (logout_call s.refresh)) s t.1
      → Closed s (continue (λ _ s'. (returned tt, record s' { access = null; refresh = null })) t)
  continue-Closed s (returned p, s') held h = ground arith
  continue-Closed s (threw f, s') held h = ground arith

  branch-Closed :
      (s : State W) (held : Bool)
      → truthy s.refresh ≡ held
      → Closed s (
          (if held then (do _ ← request fetch base_url (logout_call s.refresh); clear) else clear)
            s)
  branch-Closed s true e =
      continue-Closed s (request fetch base_url (logout_call s.refresh) s) e
        (open_call-Sends (logout_call s.refresh) s refl)
  branch-Closed s false e = (refl, refl, inl (e, refl))

  -- `logout` that returns has cleared both tokens, after telling the server the refresh token if one
  -- was set, and after no request otherwise. If the server cannot be told, `logout` throws and the
  -- tokens stay.
  logout-Closed : (s : State W) → Closed s (logout fetch base_url s)
  unfolding logout
  logout-Closed s = branch-Closed s (truthy s.refresh) refl
