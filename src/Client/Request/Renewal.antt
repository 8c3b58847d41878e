-- ===== src/Client/Request/Renewal.antt =====
-- An expired access token, from the first answer of 401 to the retry.
use billgen.Prelude.{String, true, false, ◌≡◌, refl, ap, ◌∙◌, arith, ◌∷◌, some, ◌+◌}
use billgen.Json.{null, obj, Fields, get_field, or_null, truthy}
use billgen.Client.Http.{HttpRequest, Response, Fetched, response, State, returned, continue, M}
use billgen.Client.Request.{
  Call, http_request, send, raw_request, renew, try_refresh, exchange, finish, request,
}
use billgen.Client.Request.Exchange.{refresh_request}

module _ {W : Type 0} (fetch : W → HttpRequest → Fetched × W) (base_url : String) where
  send-response :
      (req : HttpRequest) (s : State W) {r : Response} {w : W}
      → fetch s.world req ≡ (response r, w)
      → send fetch base_url req s ≡ (returned r, record s { sent = req ∷ s.sent; world = w })
  unfolding send
  send-response req s e = ground arith

  try_refresh-renewed :
      (s : State W) (second : Response) (w : W) (fs : Fields)
      → truthy s.refresh ≡ true
      → fetch s.world (refresh_request fetch base_url s) ≡ (response second, w)
      → second.ok ≡ true
      → second.json ≡ some (obj fs)
      → try_refresh fetch base_url s ≡ (
        returned true,
        record s {
          access = or_null (get_field "access_token" fs);
          refresh = or_null (get_field "refresh_token" fs);
          sent = refresh_request fetch base_url s ∷ s.sent;
          world = w;
        },
      )
  unfolding try_refresh raw_request renew
  try_refresh-renewed s second w fs held answered good json =
      ground (arith, send-response (refresh_request fetch base_url s) s answered)

  try_refresh-refused :
      (s : State W) (second : Response) (w : W)
      → truthy s.refresh ≡ true
      → fetch s.world (refresh_request fetch base_url s) ≡ (response second, w)
      → second.ok ≡ false
      → try_refresh fetch base_url s ≡ (
        returned false,
        record {
          access = null;
          refresh = null;
          lost = s.lost + 1;
          sent = refresh_request fetch base_url s ∷ s.sent;
          world = w;
        },
      )
  unfolding try_refresh raw_request renew
  try_refresh-refused s second w held answered bad =
      ground (arith, send-response (refresh_request fetch base_url s) s answered)

  exchange-kept :
      (again : M W Response) (s s' t : State W) (first : Response)
      → again s ≡ (returned first, s')
      → first.status ≡ 401
      → try_refresh fetch base_url s' ≡ (returned false, t)
      → exchange fetch base_url again true s ≡ (returned first, t)
  unfolding exchange
  exchange-kept again s s' t first e expired refused = rw e (rw expired (rw refused refl))

  exchange-retried :
      (again : M W Response) (s s' t : State W) (first : Response)
      → again s ≡ (returned first, s')
      → first.status ≡ 401
      → try_refresh fetch base_url s' ≡ (returned true, t)
      → exchange fetch base_url again true s ≡ again t
  unfolding exchange
  exchange-retried again s s' t first e expired renewed = rw e (rw expired (rw renewed refl))

  -- The client after a refresh that brought the tokens `fs`, and the retry that follows it.
  abbrev pub renewed_state : Call → State W → Fields → W → State W
  renewed_state c s fs w = record {
    access = or_null (get_field "access_token" fs);
    refresh = or_null (get_field "refresh_token" fs);
    lost = s.lost;
    sent = refresh_request fetch base_url s ∷ http_request fetch base_url s.access c ∷ s.sent;
    world = w;
  }

  module _ (c : Call) (s : State W) {first : Response} {w : W} (protected : c.auth ≡ true)
      (held : truthy s.refresh ≡ true)
      (answered : fetch s.world (http_request fetch base_url s.access c) ≡ (response first, w))
      (expired : first.status ≡ 401) {second : Response} {w' : W}
      (refreshed : fetch w (refresh_request fetch base_url s) ≡ (response second, w')) where
    -- A protected call that is answered 401 refreshes once, and its result is that of the retry, sent
    -- with the new access token in the state that holds the new tokens.
    pub request-renewed :
        (fs : Fields)
        → second.ok ≡ true
        → second.json ≡ some (obj fs)
        → request fetch base_url c s
          ≡ continue (finish fetch base_url c.blob) (
              send fetch base_url
                (http_request fetch base_url (or_null (get_field "access_token" fs)) c)
                (renewed_state c s fs w'))
    unfolding request raw_request
    request-renewed fs good json =
        let sent_once = send-response (http_request fetch base_url s.access c) s answered in
        let renewed =
          try_refresh-renewed
            (record s { sent = http_request fetch base_url s.access c ∷ s.sent; world = w }) second
            w' fs held refreshed good json in
        ap (continue (finish fetch base_url c.blob)) (
          ap (λ with_auth. exchange fetch base_url (raw_request fetch base_url c) with_auth s)
            protected
          ∙ exchange-retried (raw_request fetch base_url c) s _ _ first sent_once expired renewed)

    -- If the server refuses the refresh token instead, the session is over: no token is left,
    -- `onAuthLost` is called once, nothing more is sent, and the result is that of the first answer.
    pub request-refused :
        second.ok ≡ false
        → request fetch base_url c s
          ≡ continue (finish fetch base_url c.blob) (
            returned first,
            record {
              access = null;
              refresh = null;
              lost = s.lost + 1;
              sent =
                  refresh_request fetch base_url s
                  ∷ http_request fetch base_url s.access c
                  ∷ s.sent;
              world = w';
            },
          )
    unfolding request raw_request
    request-refused bad =
        let sent_once = send-response (http_request fetch base_url s.access c) s answered in
        let refused =
          try_refresh-refused
            (record s { sent = http_request fetch base_url s.access c ∷ s.sent; world = w }) second
            w' held refreshed bad in
        ap (continue (finish fetch base_url c.blob)) (
          ap (λ with_auth. exchange fetch base_url (raw_request fetch base_url c) with_auth s)
            protected
          ∙ exchange-kept (raw_request fetch base_url c) s _ _ first sent_once expired refused)
