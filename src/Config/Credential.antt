-- ===== src/Config/Credential.antt =====
-- Which credential an endpoint gets (src/deepseek_mcp/config.py: `_load_api_key`).
use mathlib.Core.List.{reverse, reverse-append, reverse-reverse}
use deepseek_as_subagent.Prelude.{
  not, ◌||◌, ◌⊎◌, ◌++◌, none, some, arith, ◌≡◌, refl, sym, ap, ◌∙◌, true, false, inl, inr, Option,
  [], ◌∷◌, if◌then◌else◌, is_empty, Bool-cases, if_true, if_false,
}
use deepseek_as_subagent.Prelude.Results.{Result, ok, bind-eq-ok, raise_if-eq-ok, ok-inj}
use deepseek_as_subagent.Text.{
  Text, codes, text_eq, text_eq_sound, text_eq_refl, starts_with, strip, member,
}
use deepseek_as_subagent.Json.{Value, str, Fields}
use deepseek_as_subagent.Config.{
  ConfigError, Url, Environment, invalid_url, missing_key, placeholder, key_of, or_else,
  configured_api_key, validate_credential_storage, provider_api_key, is_http_scheme, is_web_scheme,
  is_http_endpoint, is_loopback, is_loopback_endpoint, loopback_hosts, has_host, parse_base_url,
  validate_base_url, is_plain, deepseek_host, is_deepseek_endpoint, remote_key, load_api_key,
}

starts_with_lem : (p s : Text) → starts_with p s ≡ true → (d : Text) × (s ≡ p ++ d)
unfolding starts_with
starts_with_lem [] s h = (s, refl)
starts_with_lem (c ∷ p) [] h = absurd (cc)
starts_with_lem (c ∷ p) (e ∷ s) h =
    let (d, f) = starts_with_lem p s (ground arith) in (d, ground arith)

-- A text ends with what its reverse starts with.
ends_with_lem :
    (p s : Text) → starts_with (reverse p) (reverse s) ≡ true → (d : Text) × (s ≡ d ++ p)
ends_with_lem p s h =
    let (d, e) = starts_with_lem (reverse p) (reverse s) h in
    (
      reverse d,
      sym (reverse-reverse s)
          ∙ (ap reverse e
              ∙ (reverse-append (reverse p) d ∙ ap (λ t. reverse d ++ t) (reverse-reverse p))),
    )

module _ (urlsplit : Text → Option Url) (lower : Text → Text) where
  -- A server that is reached by plain HTTP, or by HTTPS on this host.
  abbrev pub IsLocal : Url → Type 0
  IsLocal u =
      (lower u.scheme ≡ codes "http")
      ⊎ ((lower u.scheme ≡ codes "https")
          × (h : Text) × (u.hostname ≡ some h)
          × ((lower h ≡ codes "localhost")
              ⊎ (lower h ≡ codes "127.0.0.1")
              ⊎ (lower h ≡ codes "::1")))

  -- A host of deepseek.com.
  abbrev pub IsDeepseek : Url → Type 0
  IsDeepseek u =
      (h : Text) × (u.hostname ≡ some h)
      × ((lower h ≡ codes "deepseek.com") ⊎ ((p : Text) × (lower h ≡ p ++ codes ".deepseek.com")))

  deepseek_host-IsDeepseek :
      (u : Url) → deepseek_host urlsplit lower u.hostname ≡ true → IsDeepseek u
  unfolding deepseek_host
  deepseek_host-IsDeepseek u e = host u.hostname refl e
    where
      host :
          (o : Option Text) → u.hostname ≡ o → deepseek_host urlsplit lower o ≡ true → IsDeepseek u
      host none f g = absurd (cc)
      host (some h) f g = elim (Bool-cases (text_eq (lower h) (codes "deepseek.com"))) [
        | inl i ↦ (h, f, inl (text_eq_sound (lower h) (codes "deepseek.com") i))
        | inr i ↦
            let ends : starts_with (reverse (codes ".deepseek.com")) (reverse (lower h)) ≡ true =
              ground arith in
            (h, f, inr (ends_with_lem (codes ".deepseek.com") (lower h) ends))
      ]

  -- A URL that was validated is the one that is parsed again.
  validated :
      (t : Text) (u : Url)
      → validate_base_url urlsplit lower (str t) ≡ ok t
      → urlsplit t ≡ some u
      → (parse_base_url urlsplit lower (str t) ≡ ok (t, u)) × (has_host urlsplit lower u ≡ true)
  unfolding validate_base_url parse_base_url
  validated t u h e =
      let (parsed, a, h1) = bind-eq-ok (parse_base_url urlsplit lower (str t)) _ h in
      let (b, c) = raise_if-eq-ok (is_empty t || not (is_plain t)) invalid_url _ a in
      let f : ◌≡◌ {A = Result ConfigError (Text × Url)} (ok (t, u)) (ok parsed) =
        rw (← c) (rw e refl) in
      let g : (t, u) ≡ parsed = ok-inj f in
      let (i, j) =
        raise_if-eq-ok (not (has_host urlsplit lower (parsed.1)) || parsed.1.has_user) invalid_url _
          h1 in
      let k : has_host urlsplit lower (parsed.1) ≡ true = ground arith in
      (a ∙ sym f, ap (λ x. has_host urlsplit lower (x.1)) g ∙ k)

  loopback_member :
      (h : Text)
      → (lower h ≡ codes "localhost") ⊎ (lower h ≡ codes "127.0.0.1") ⊎ (lower h ≡ codes "::1")
      → member (lower h) (loopback_hosts urlsplit lower) ≡ true
  unfolding member loopback_hosts text_eq
  loopback_member h (inl e) = rw e refl
  loopback_member h (inr (inl e)) = rw e refl
  loopback_member h (inr (inr e)) = rw e refl

  local_host :
      (u : Url)
      → has_host urlsplit lower u ≡ true
      → IsLocal u
      → (is_http_scheme urlsplit lower u || is_loopback urlsplit lower u) ≡ true
  unfolding is_http_scheme is_loopback is_web_scheme has_host text_eq
  local_host u n (inl e) = rw (e, text_eq_refl (codes "http")) refl
  local_host u n (inr (e, h, f, c)) =
      let i : is_empty h ≡ false = ground (arith, n, f) in rw (e, f, i, loopback_member h c) refl

  -- What a credential that was loaded is.
  loaded :
      (env : Environment) (data' : Fields) (endpoint : Value) {key : Text}
      → load_api_key urlsplit lower env data' endpoint ≡ ok key
      → (configured : Text) × (validate_credential_storage env data' ≡ ok tt)
        × (configured_api_key data' ≡ ok configured)
        × ((if is_http_endpoint urlsplit lower endpoint
                || is_loopback_endpoint urlsplit lower endpoint
              then ok (or_else (strip (key_of env.openai_key)) (codes "local-no-auth"))
              else remote_key (strip (provider_api_key urlsplit lower env endpoint configured)))
            ≡ ok key)
  unfolding load_api_key
  loaded env data' endpoint h =
      let (u, a, h1) = bind-eq-ok (validate_credential_storage env data') _ h in
      let (configured, b, h2) = bind-eq-ok (configured_api_key data') _ h1 in (configured, a, b, h2)

  or_else-nonempty : (a b : Text) → is_empty b ≡ false → is_empty (or_else a b) ≡ false
  or_else-nonempty [] b h = h
  or_else-nonempty (c ∷ a) b h = refl

  remote_key-nonempty : (t : Text) {key : Text} → remote_key t ≡ ok key → is_empty key ≡ false
  unfolding remote_key
  remote_key-nonempty [] h = absurd (cc)
  remote_key-nonempty (c ∷ t) {key} h =
      let (a, b) = raise_if-eq-ok (text_eq (c ∷ t) placeholder) missing_key (ok (c ∷ t)) h in
      let e : c ∷ t ≡ key = cc in ap is_empty (sym e)

  load_api_key_other :
      (env : Environment) (data' : Fields) (endpoint : Value) (deepseek_key : Option Text)
      → is_deepseek_endpoint urlsplit lower endpoint ≡ false
      → load_api_key urlsplit lower (record env { deepseek_key = deepseek_key }) data' endpoint
        ≡ load_api_key urlsplit lower env data' endpoint
  unfolding load_api_key provider_api_key validate_credential_storage
  load_api_key_other env data' endpoint d n = rw n refl

  local_endpoint :
      (t : Text) (u : Url)
      → validate_base_url urlsplit lower (str t) ≡ ok t
      → urlsplit t ≡ some u
      → IsLocal u
      → (is_http_endpoint urlsplit lower (str t) || is_loopback_endpoint urlsplit lower (str t))
        ≡ true
  unfolding is_http_endpoint is_loopback_endpoint
  local_endpoint t u h e l = let (parses, n) = validated t u h e in rw parses (local_host u n l)

  loaded-nonempty :
      (env : Environment) (data' : Fields) (endpoint : Value) {key : Text}
      → load_api_key urlsplit lower env data' endpoint ≡ ok key
      → is_empty key ≡ false
  loaded-nonempty env data' endpoint {key} h =
      let (configured, a, b, e) = loaded env data' endpoint h in
      elim (Bool-cases (
        is_http_endpoint urlsplit lower endpoint || is_loopback_endpoint urlsplit lower endpoint)) [
          | inl l ↦
              let f = sym (if_true _ _ l) ∙ e in
              ap is_empty (ok-inj (sym f))
              ∙ or_else-nonempty (strip (key_of env.openai_key)) (codes "local-no-auth") refl
          | inr l ↦
              remote_key-nonempty (strip (provider_api_key urlsplit lower env endpoint configured))
                (sym (if_false _ _ l) ∙ e)
        ]

  foreign_endpoint :
      (t : Text) (u : Url)
      → urlsplit t ≡ some u
      → ¬ IsDeepseek u
      → is_deepseek_endpoint urlsplit lower (str t) ≡ false
  unfolding is_deepseek_endpoint
  foreign_endpoint t u e n = elim (Bool-cases (deepseek_host urlsplit lower u.hostname)) [
    | inl i ↦ absurd (n (deepseek_host-IsDeepseek u i))
    | inr i ↦ rw (is_deepseek_endpoint, e) i
  ]

  -- A credential that is loaded for a base URL that passed the validation is not empty. For a server that
  -- is reached by plain HTTP, or by HTTPS at localhost, 127.0.0.1 or ::1, it depends neither on the
  -- configuration nor on DEEPSEEK_API_KEY, and for a host that is neither deepseek.com nor below it it
  -- does not depend on DEEPSEEK_API_KEY.
  pub load_api_key-confined :
      (env : Environment) (data' : Fields) (t : Text) (u : Url) {key : Text}
      → validate_base_url urlsplit lower (str t) ≡ ok t
      → urlsplit t ≡ some u
      → load_api_key urlsplit lower env data' (str t) ≡ ok key
      → (is_empty key ≡ false)
        × (IsLocal u
            → (other : Fields) (deepseek_key : Option Text) (key2 : Text)
            → load_api_key urlsplit lower (record env { deepseek_key = deepseek_key }) other (str t)
              ≡ ok key2
            → key2 ≡ key)
        × (¬ IsDeepseek u
            → (deepseek_key : Option Text)
            → load_api_key urlsplit lower (record env { deepseek_key = deepseek_key }) data' (str t)
              ≡ ok key)
  load_api_key-confined env data' t u {key} valid split h =
      let (configured, a, b, e) = loaded env data' (str t) h in
      (
        loaded-nonempty env data' (str t) h,
        λ l other d key2 g.
            let i = local_endpoint t u valid split l in
            let (c2, a2, b2, e2) = loaded (record env { deepseek_key = d }) other (str t) g in
            ok-inj (sym (sym (if_true _ _ i) ∙ e2) ∙ (sym (if_true _ _ i) ∙ e)),
        λ n d. load_api_key_other env data' (str t) d (foreign_endpoint t u split n) ∙ h,
      )
