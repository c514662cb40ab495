-- ===== src/Access/Share.antt =====
-- Portal links: `get_valid_share` of api/access.py and services/auth/share_tokens.py
-- (backend/src/docos). The HMAC, the sealing of secrets and the check of a password are parameters.
use cross_format_documment.Base.{
  ℕ, ◌++◌, ◌≤◌, ◌⊎◌, Bool-cases, false≢true, String, ◌==◌, eq_refl, Option, none, some, Bool, true,
  false, not, ◌||◌, ◌&&◌, List, [], ◌∷◌, ◌≡◌, refl, arith, ltb, if◌then◌else◌, Option-cases, ap,
  subst, ◌∙◌, inl, inr,
}
use cross_format_documment.Base.Maps.{Map}
use cross_format_documment.Base.Http.{
  Http, reply, found, guard, ◌>>=◌, ◌>>◌, guard-eq-reply, found-eq-reply, reply-injective,
}
use cross_format_documment.Base.Text.{join}
use cross_format_documment.Access.Owner.{Document}

pub record Share : Type 0 where
  pub id : String
  pub document_id : String
  pub token : String
  pub token_ciphertext : Option String
  pub pin_hash : Option String
  pub expires_at : Option ℕ
  pub revoked : Bool

pub record ShareAccess : Type 0 where
  pub share : Share
  pub document : Document

-- not `expires_at < now`
abbrev pub in_time : Option ℕ → ℕ → Bool
in_time none now = true
in_time (some exp) now = not (ltb exp now)

abbrev pub has_version : Document → Bool
has_version doc = elim doc.current_version_id [ none ↦ false | some v ↦ true ]

not-true : (b : Bool) → not b ≡ true → b ≡ false
not-true true h = cc
not-true false h = refl

some≢none : {A : Type 0} {a : A} → some a ≡ none → ⊥
some≢none h = cc

module _ (hmac : String → String → String) (seal : String → String → String → String)
    (verify_password : String → String → Bool) (secret : String) where
  unfoldable pub token_digest : String → String
  token_digest token = join "hmac-sha256:" (hmac secret token)

  unfoldable pub protect_share_token : String → String → String × String
  unfolding token_digest
  protect_share_token token share_id =
      (token_digest token, seal secret (join "share:" share_id) token)

  -- `not pin or not verify_password(pin, pin_hash)` is false
  abbrev pub pin_fits : Option String → Option String → Bool
  pin_fits none pin = true
  pin_fits (some hash) none = false
  pin_fits (some hash) (some pin) = not (pin == "") && verify_password pin hash

  abbrev pub is_hit : String → Share → Bool
  unfolding token_digest
  is_hit token s = s.token == token_digest token || s.token == token

  -- the first row of the query
  unfoldable pub lookup_share : List Share → String → Option Share
  unfolding is_hit
  lookup_share [] token = none
  lookup_share (s ∷ shares) token =
      let rest = lookup_share shares token in if is_hit token s then some s else rest

  -- A row that held the token itself gets the digest and the sealed token in its place.
  unfoldable pub protected : String → Share → Share
  unfolding protect_share_token
  protected token s =
      let (digest, ciphertext) = protect_share_token token s.id in
      elim s.token_ciphertext [
        | some c ↦ s
        | none ↦ record {
          id = s.id;
          document_id = s.document_id;
          token = digest;
          token_ciphertext = some ciphertext;
          pin_hash = s.pin_hash;
          expires_at = s.expires_at;
          revoked = s.revoked;
        }
      ]

  -- `get_valid_share` on the row that was found.
  unfoldable pub opened : Map Document → Option String → ℕ → String → Share → Http ShareAccess
  unfolding protected
  opened docs pin now token share = do
    guard (not share.revoked) 404
    guard (in_time share.expires_at now) 410
    guard (pin_fits share.pin_hash pin) 401
    document ← found (docs share.document_id) 404
    guard (has_version document) 404
    reply (record { share = protected token share; document = document })

  unfoldable pub get_valid_share :
      List Share → Map Document → Option String → ℕ → String → Http ShareAccess
  unfolding lookup_share opened
  get_valid_share shares docs pin now token = do
    share ← found (lookup_share shares token) 404
    opened docs pin now token share

  -- A row that had a sealed token is as it was; one that held the token itself holds its digest and
  -- the sealed token then, and is otherwise as it was.
  abbrev pub Protected : String → Share → Share → Type 0
  Protected token old new =
      ((new ≡ old) × (c : String) × (old.token_ciphertext ≡ some c))
      ⊎ ((old.token_ciphertext ≡ none)
          × (new.token ≡ join "hmac-sha256:" (hmac secret token))
          × (new.token_ciphertext ≡ some (seal secret (join "share:" old.id) token))
          × (new.id ≡ old.id)
          × (new.document_id ≡ old.document_id)
          × (new.pin_hash ≡ old.pin_hash)
          × (new.expires_at ≡ old.expires_at)
          × (new.revoked ≡ old.revoked))

  protected_of_sealed :
      (token c : String) (s : Share) → s.token_ciphertext ≡ some c → protected token s ≡ s
  unfolding protected
  protected_of_sealed token c s e = rw e refl

  protected-Protected : (token : String) (s : Share) → Protected token s (protected token s)
  unfolding protected protect_share_token token_digest
  protected-Protected token s = elim (Option-cases s.token_ciphertext) [
    | inl n ↦ inr (
      n,
      rw (protected, n) refl,
      rw (protected, n) refl,
      rw (protected, n) refl,
      rw (protected, n) refl,
      rw (protected, n) refl,
      rw (protected, n) refl,
      rw (protected, n) refl,
    )
    | inr (c, e) ↦ inl (protected_of_sealed token c s e, c, e)
  ]

  in_time-cases :
      (exp : Option ℕ) (now : ℕ)
      → in_time exp now ≡ true
      → (exp ≡ none) ⊎ ((e : ℕ) × (exp ≡ some e) × (now ≤ e))
  in_time-cases none now h = inl refl
  in_time-cases (some e) now h = inr (e, refl, ground (arith, h))

  pin_fits-cases :
      (hash pin : Option String)
      → pin_fits hash pin ≡ true
      → (hash ≡ none)
        ⊎ ((h : String) × (p : String) × (hash ≡ some h)
            × (pin ≡ some p)
            × ((p == "") ≡ false)
            × (verify_password p h ≡ true))
  pin_fits-cases none pin h = inl refl
  pin_fits-cases (some x) none h = cc
  pin_fits-cases (some x) (some p) h = inr (x, p, refl, refl, ground (arith, h), ground (arith, h))

  version_there :
      (d : Document) → has_version d ≡ true → (v : String) × (d.current_version_id ≡ some v)
  version_there d h = elim (Option-cases d.current_version_id) [
    | inl missing ↦ absurd (false≢true (rw missing at h))
    | inr (v, e) ↦ (v, e)
  ]

  -- What is opened was not revoked and not expired, the PIN is given and right where the share has
  -- one, and the document is the share's and has a version. A row that held the token itself, without
  -- a sealed one, holds the token's digest and the sealed token then; any other stays as it was.
  pub opened-reply :
      (docs : Map Document) (pin : Option String) (now : ℕ) (token : String) (share : Share)
      (a : ShareAccess)
      → opened docs pin now token share ≡ reply a
      → (share.revoked ≡ false)
        × ((share.expires_at ≡ none) ⊎ ((e : ℕ) × (share.expires_at ≡ some e) × (now ≤ e)))
        × ((share.pin_hash ≡ none)
            ⊎ ((h : String) × (p : String) × (share.pin_hash ≡ some h)
                × (pin ≡ some p)
                × ((p == "") ≡ false)
                × (verify_password p h ≡ true)))
        × (docs share.document_id ≡ some a.document)
        × ((v : String) × (a.document.current_version_id ≡ some v))
        × Protected token share a.share
  unfolding opened protected
  opened-reply docs pin now token share a h =
      let end = λ (d : Document).
        guard (has_version d) 404
        >> reply (record { share = protected token share; document = d }) in
      let load = found (docs share.document_id) 404 >>= end in
      let (live, h1) =
        guard-eq-reply (not share.revoked) 404
          (guard (in_time share.expires_at now) 410
            >> (guard (pin_fits share.pin_hash pin) 401 >> load))
          h in
      let (timely, h2) =
        guard-eq-reply (in_time share.expires_at now) 410
          (guard (pin_fits share.pin_hash pin) 401 >> load) h1 in
      let (fits, h3) = guard-eq-reply (pin_fits share.pin_hash pin) 401 load h2 in
      let (d, there, h4) = found-eq-reply (docs share.document_id) 404 end h3 in
      let (version, h5) =
        guard-eq-reply (has_version d) 404
          (reply (record { share = protected token share; document = d })) h4 in
      let e = reply-injective h5 in
      let same : d ≡ a.document = ap (λ (x : ShareAccess). x.document) e in
      (
        not-true share.revoked live,
        in_time-cases share.expires_at now timely,
        pin_fits-cases share.pin_hash pin fits,
        there ∙ ap some same,
        version_there a.document (subst (λ x. has_version x ≡ true) same version),
        subst (Protected token share) (ap (λ (x : ShareAccess). x.share) e)
            (protected-Protected token share),
      )

  lookup_share-append :
      (earlier later : List Share) (token : String)
      → lookup_share earlier token ≡ none
      → lookup_share (earlier ++ later) token ≡ lookup_share later token
  unfolding lookup_share
  lookup_share-append [] later token h = refl
  lookup_share-append (s ∷ earlier) later token h = elim (Bool-cases (is_hit token s)) [
    | inl hit ↦ absurd (some≢none (rw hit at h))
    | inr miss ↦ rw miss (lookup_share-append earlier later token (rw miss at h))
  ]

  -- Where no earlier row fits, the lookup value that is stored for a token, with the sealed token
  -- beside it, opens the share as the token does, with the same answer for every PIN, at any time.
  pub digest_opens :
      (docs : Map Document) (pin : Option String) (now : ℕ) (token c : String) (share : Share)
      (earlier later : List Share)
      → share.token ≡ token_digest token
      → share.token_ciphertext ≡ some c
      → lookup_share earlier token ≡ none
      → lookup_share earlier (token_digest token) ≡ none
      → get_valid_share (earlier ++ share ∷ later) docs pin now (token_digest token)
        ≡ get_valid_share (earlier ++ share ∷ later) docs pin now token
  unfolding get_valid_share opened lookup_share is_hit protected
  digest_opens docs pin now token c share earlier later h s none_for_token none_for_digest =
      let by_digest : share.token == token_digest token ≡ true =
        rw h (eq_refl (token_digest token)) in
      let once : lookup_share (earlier ++ share ∷ later) token ≡ some share =
        lookup_share-append earlier (share ∷ later) token none_for_token
        ∙ ground (arith, by_digest) in
      let again : lookup_share (earlier ++ share ∷ later) (token_digest token) ≡ some share =
        lookup_share-append earlier (share ∷ later) (token_digest token) none_for_digest
        ∙ ground (arith, by_digest) in
      rw
        (
          once,
          again,
          protected_of_sealed token c share s,
          protected_of_sealed (token_digest token) c share s,
        )
        refl
