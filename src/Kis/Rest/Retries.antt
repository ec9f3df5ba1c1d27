-- ===== src/Kis/Rest/Retries.antt =====
-- How often a request reaches the venue.
use loss_function.Prelude.{
  ℕ, suc, ◌+◌, ◌≤◌, Bool, true, false, ◌≡◌, refl, sym, ap, ◌==◌, inl, inr, List, [], ◌∷◌, Result,
  ok, err, arith, Option-cases, Bool-cases, if◌then◌else◌,
}
use loss_function.Prelude.Text.{Text}
use loss_function.Kis.{Json, Reply, failed, answered, Request, Wire, Times}
use loss_function.Kis.Auth.{
  KisAuth, CachedToken, AuthError, TokenResponse, token_request, issue, fresh_token, keep_token,
  access_token, invalidate,
}
use loss_function.Kis.Auth.Tokens.{access_cached, access_issued}
use loss_function.Kis.Rest.{
  ApiError, KisRestClient, Call, request_with, is_rejection, ask, ask_again, after_first, request,
}

-- The wire, with all requests that go over it, the latest first.
abbrev pub logged : {H J : Type 0} → Wire H J → Wire (H × List Request) J
logged w = record { send = λ (h, log) r. let (reply, h') = w.send h r in (reply, (h', r ∷ log)) }

-- A request that carries headers is a call; one for a token has none.
abbrev pub is_call : Request → Bool
is_call r = elim r.headers [ [] ↦ false | x ∷ xs ↦ true ]

abbrev pub calls : List Request → ℕ
calls [] = 0
calls (r ∷ rs) = let n = calls rs in if is_call r then suc n else n

-- whether the venue answered with status 401 or 403, and with no other
abbrev pub is_401_or_403 : {J : Type 0} → Reply J → Bool
is_401_or_403 (failed e) = false
is_401_or_403 (answered status shown cont body) = if status == 401 then true else status == 403

abbrev pub rejects : {J : Type 0} → Result ApiError (Reply J) → Bool
rejects (err e) = false
rejects (ok reply) = is_401_or_403 reply

rejection_status : {J : Type 0} (reply : Reply J) → is_rejection reply ≡ is_401_or_403 reply
unfolding is_rejection
rejection_status (failed e) = refl
rejection_status (answered status shown cont body) = ground arith

module _ {T H J : Type 0} (t : Times T) (decode : J → Result Text TokenResponse)
    (w : Wire H J) where
  kept_outside :
      (a : KisAuth T (H × List Request)) (x : Result AuthError (CachedToken T) × (H × List Request))
      → (keep_token t decode (logged w) a x).1.1 ≡ x.1
  unfolding keep_token
  kept_outside a (err e, h) = refl
  kept_outside a (ok token, h) = refl

  -- a token is no call
  token_calls :
      (a : KisAuth T (H × List Request)) (h : H × List Request)
      → calls (access_token t decode (logged w) a h).1.1.1 ≡ calls h.1
  unfolding issue token_request
  token_calls a h = elim (Option-cases (fresh_token t decode (logged w) a h)) [
    | inl stale ↦
        rw (access_issued t decode (logged w) a h stale) (
          ap (λ (x : H × List Request). calls x.1) (kept_outside a (issue t decode (logged w) a h)))
    | inr (x, e) ↦ rw (access_cached t decode (logged w) a h e)
  ]

module _ {T H J : Type 0} ⦃j : Json J⦄ (t : Times T) (decode : J → Result Text TokenResponse)
    (w : Wire H J) where
  ask_calls :
      (c : KisRestClient T (H × List Request)) (h : H × List Request) (call : Call)
      → calls (ask t decode (logged w) c h call).1.1.1 ≤ calls h.1 + 1
  unfolding ask request_with
  ask_calls c h call = ground (arith, token_calls t decode w c.auth h)

  after_calls :
      (call : Call)
      (x : Result ApiError (Reply J) × (KisRestClient T (H × List Request) × (H × List Request)))
      → calls (after_first t decode (logged w) call x).1.1.1
        ≤ calls x.1.1.1 + (if rejects x.0 then 1 else 0)
  unfolding after_first ask_again
  after_calls call (err e, s) = omega arith
  after_calls call (ok reply, (c, h)) = elim (Bool-cases (is_rejection reply)) [
    | inl k ↦
        rw (sym (rejection_status reply))
          (rw k (ask_calls (record c { auth = invalidate c.auth }) h call))
    | inr k ↦ rw (sym (rejection_status reply)) (rw k (omega arith))
  ]

  -- A request of the client makes at most one call of the venue, and a second one only if the venue
  -- answered the first with status 401 or 403; whatever else goes wrong, such as a lost connection or
  -- a server's error, nothing is sent again.
  pub request_calls :
      (c : KisRestClient T (H × List Request)) (h : H × List Request) (call : Call)
      → calls (request t decode (logged w) c h call).1.1.1
        ≤ calls h.1 + (if rejects (ask t decode (logged w) c h call).0 then 2 else 1)
  unfolding request
  request_calls c h call =
      ground (arith, ask_calls c h call, after_calls call (ask t decode (logged w) c h call))
