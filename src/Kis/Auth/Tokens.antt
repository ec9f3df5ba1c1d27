-- ===== src/Kis/Auth/Tokens.antt =====
-- When a token is used again.
use loss_function.Prelude.{
  true, ◌≡◌, ap, ◌∙◌, none, some, Result, ok, err, arith, inl, inr, Option-cases,
}
use loss_function.Prelude.Text.{Text}
use loss_function.Kis.{Wire, Times}
use loss_function.Kis.Auth.{
  TokenResponse, AuthError, CachedToken, KisAuth, issue, fresh_token, keep_token, access_token,
}

module _ {T H J : Type 0} (t : Times T) (decode : J → Result Text TokenResponse)
    (w : Wire H J) where
  pub access_cached :
      (a : KisAuth T H) (h : H) {token : Text}
      → fresh_token t decode w a h ≡ some token
      → access_token t decode w a h ≡ (ok token, (a, h))
  unfolding access_token
  access_cached a h k = ground arith

  pub access_issued :
      (a : KisAuth T H) (h : H)
      → fresh_token t decode w a h ≡ none
      → access_token t decode w a h ≡ keep_token t decode w a (issue t decode w a h)
  unfolding access_token
  access_issued a h k = ground arith

  fresh_cached :
      (a : KisAuth T H) (h : H) (cached : CachedToken T)
      → a.cache ≡ some cached
      → t.before (a.now h) (t.back cached.expires_at a.margin) ≡ true
      → fresh_token t decode w a h ≡ some cached.access_token
  unfolding fresh_token
  fresh_cached a h cached k b = ground arith

  -- the token that is returned is the cached one
  fresh_inv :
      (a : KisAuth T H) (h : H) (cached : CachedToken T) {token : Text}
      → fresh_token t decode w a h ≡ some token
      → a.cache ≡ some cached
      → cached.access_token ≡ token
  unfolding fresh_token
  fresh_inv a h cached k c = ground arith

  kept_inv :
      (a : KisAuth T H) (x : Result AuthError (CachedToken T) × H) (cached : CachedToken T)
      {token : Text}
      → (keep_token t decode w a x).0 ≡ ok token
      → (keep_token t decode w a x).1.0.cache ≡ some cached
      → cached.access_token ≡ token
  unfolding keep_token
  kept_inv a (err e, h) cached k c = cc
  kept_inv a (ok fresh, h) cached k c = ground (arith, k, c)

  returned_cached :
      (a : KisAuth T H) (h : H) (cached : CachedToken T) {token : Text}
      → (access_token t decode w a h).0 ≡ ok token
      → (access_token t decode w a h).1.0.cache ≡ some cached
      → cached.access_token ≡ token
  returned_cached a h cached {token} k c = elim (Option-cases (fresh_token t decode w a h)) [
    | inl stale ↦
        kept_inv a (issue t decode w a h) cached (rw (access_issued a h stale) at k)
          (rw (access_issued a h stale) at c)
    | inr (x, e) ↦
        fresh_inv a h cached (e ∙ ground (arith, rw (access_cached a h e) at k))
          (rw (access_cached a h e) at c)
  ]

  -- A token that was handed out is handed out again, without a request and without a change, at any
  -- later state of the outside world whose clock is before the token's expiry less the margin.
  pub token_reused :
      (a : KisAuth T H) (h later : H) (cached : CachedToken T) {token : Text}
      → (access_token t decode w a h).0 ≡ ok token
      → (access_token t decode w a h).1.0.cache ≡ some cached
      → t.before
          ((access_token t decode w a h).1.0.now later)
          (t.back cached.expires_at (access_token t decode w a h).1.0.margin)
        ≡ true
      → access_token t decode w (access_token t decode w a h).1.0 later
        ≡ (ok token, ((access_token t decode w a h).1.0, later))
  token_reused a h later cached {token} k c b =
      let a' = (access_token t decode w a h).1.0 in
      access_cached a' later
        (fresh_cached a' later cached c b ∙ ap some (returned_cached a h cached k c))
