-- ===== src/Middleware/Forward/Vouched.antt =====
-- For whom the edge server forwards an incident.
use open_devops_agent.Prelude.{
  ◌≡◌, refl, ap, ◌∙◌, sym, ◌⊎◌, inl, inr, true, ◌&&◌, not, Option, none, some, Bool-cases, if_yes,
  if_no,
}
use mathlib.Core.Path.{subst}
use open_devops_agent.Text.{Text, codes, text_eq, is_empty}
use open_devops_agent.Environ.{Environ, or_else}
use open_devops_agent.Api.Webhook.{given}
use open_devops_agent.Json.{
  Json, null, string, array, object, number, boolean, Fields, truthy, get_field, str_of, set_field,
  get_field-set_field, get_field-set_field_other, get_field-set_default_other,
}
use open_devops_agent.Middleware.Settings.{
  Auth, passed, http, type_error, agent_base, default_host, is_caller_org_id_allowed, org_id,
  require_middleware_auth, sign,
}
use open_devops_agent.Middleware.Forward.{
  with_host, with_labels, mark_labels, Outgoing, post, chosen_org, trusted_org, prepared_payload,
  authorised, request_for, of_json, outgoing, prepare,
}

abbrev org_key : Text
org_key = codes "org_id"

get_field-with_host :
    (host : Text) (payload : Fields)
    → get_field org_key (with_host host payload) ≡ get_field org_key payload
unfolding with_host text_eq
get_field-with_host host payload =
    elim (Bool-cases
      (not (is_empty host) && not (truthy (or_else (get_field (codes "host") payload) null)))) [
        | inl yes_host ↦
            ap (get_field org_key)
              (if_yes _ (set_field (codes "host") (string host) payload) payload yes_host)
            ∙ get_field-set_field_other org_key (codes "host") (string host) payload refl
        | inr no_host ↦ ap (get_field org_key) (if_no _ _ payload no_host)
      ]

get_field-mark_labels :
    (labels : Option Json) (payload : Fields)
    → get_field org_key (mark_labels labels payload) ≡ get_field org_key payload
unfolding text_eq
get_field-mark_labels none payload = refl
get_field-mark_labels (some null) payload = refl
get_field-mark_labels (some (boolean b)) payload = refl
get_field-mark_labels (some (number z s)) payload = refl
get_field-mark_labels (some (string s)) payload = refl
get_field-mark_labels (some (array items)) payload = refl
get_field-mark_labels (some (object labels)) payload =
    get_field-set_field_other org_key (codes "labels") _ payload refl

get_field-with_labels :
    (payload : Fields) → get_field org_key (with_labels payload) ≡ get_field org_key payload
unfolding with_labels text_eq
get_field-with_labels payload =
    get_field-mark_labels _ _ ∙ get_field-set_default_other org_key (codes "labels") _ payload refl

-- The organisation is the server's own, or one that callers may name.
abbrev pub IsVouched : Environ → Text → Type 0
IsVouched env org = (org ≡ org_id env) ⊎ (is_caller_org_id_allowed env (some org) ≡ true)

trusted_org-IsVouched :
    (env : Environ) (caller : Option Text) → IsVouched env (trusted_org env caller)
trusted_org-IsVouched env none = inl refl
trusted_org-IsVouched env (some org) = elim (Bool-cases (is_caller_org_id_allowed env (some org))) [
  | inl allowed ↦ rw allowed (inr allowed)
  | inr barred ↦ rw barred (inl refl)
]

post-injective :
    {Bytes : Type 0} {r r' : Outgoing Bytes} {p p' : Fields}
    → post r p ≡ post r' p'
    → (r ≡ r') × (p ≡ p')
post-injective h = (cc, cc)

module _ {Bytes : Type 0} (json_loads : Bytes → Option Json) (json_dumps : Json → Bytes)
    (repr : Json → Text) (hmac_sha256 : Text → Bytes → Text) where
  get_field-prepared_payload :
      (env : Environ) (source x_org_id : Option Text) (fields : Fields)
      → (org : Text) × IsVouched env org
        × (get_field org_key
              (prepared_payload json_loads json_dumps repr hmac_sha256 env source x_org_id fields)
            ≡ some (string org))
  unfolding prepared_payload chosen_org
  get_field-prepared_payload env source x_org_id fields = (
    _,
    trusted_org-IsVouched env _,
    get_field-with_labels _
        ∙ get_field-with_host (default_host env) _
        ∙ get_field-set_field org_key _ _,
  )

  -- What the request to the agent carries.
  pub record IsVouchedFor (env : Environ) (request : Outgoing Bytes) (payload : Fields)
      : Type 0 where
    pub org : Text
    pub vouched : IsVouched env org
    pub in_payload : get_field org_key payload ≡ some (string org)
    pub in_header : request.x_org_id ≡ org
    pub body_of : request.body ≡ json_dumps (object payload)
    pub signed : request.signature ≡ given (some (sign hmac_sha256 env request.body))

  request_for-IsVouchedFor :
      (env : Environ) (payload : Fields) (org : Text)
      → IsVouched env org
      → get_field org_key payload ≡ some (string org)
      → IsVouchedFor env (request_for json_loads json_dumps repr hmac_sha256 env payload) payload
  unfolding str_of
  request_for-IsVouchedFor env payload org vouched e = record {
    org = org;
    vouched = vouched;
    in_payload = e;
    in_header = ap (λ v. str_of repr (or_else v null)) e;
    body_of = refl;
    signed = refl;
  }

  outgoing-IsVouchedFor :
      (env : Environ) (source x_org_id : Option Text) (fields : Fields) (request : Outgoing Bytes)
      (payload : Fields)
      → outgoing json_loads json_dumps repr hmac_sha256 env
          (prepared_payload json_loads json_dumps repr hmac_sha256 env source x_org_id fields)
        ≡ post request payload
      → IsVouchedFor env request payload
  outgoing-IsVouchedFor env source x_org_id fields request payload h =
      let (org, vouched, e) = get_field-prepared_payload env source x_org_id fields in
      let (same_request, same_payload) = post-injective h in
      subst (IsVouchedFor env request) same_payload (
        subst
          (λ r.
            IsVouchedFor env r
              (prepared_payload json_loads json_dumps repr hmac_sha256 env source x_org_id fields))
          same_request (request_for-IsVouchedFor env _ org vouched e))

  of_json-IsVouchedFor :
      (env : Environ) (source x_org_id : Option Text) (json : Option Json)
      (request : Outgoing Bytes) (payload : Fields)
      → of_json json_loads json_dumps repr hmac_sha256 env source x_org_id json
        ≡ post request payload
      → IsVouchedFor env request payload
  of_json-IsVouchedFor env source x_org_id none request payload h = absurd (cc)
  of_json-IsVouchedFor env source x_org_id (some null) request payload h = absurd (cc)
  of_json-IsVouchedFor env source x_org_id (some (boolean b)) request payload h = absurd (cc)
  of_json-IsVouchedFor env source x_org_id (some (number z s)) request payload h = absurd (cc)
  of_json-IsVouchedFor env source x_org_id (some (string s)) request payload h = absurd (cc)
  of_json-IsVouchedFor env source x_org_id (some (array items)) request payload h = absurd (cc)
  of_json-IsVouchedFor env source x_org_id (some (object fields)) request payload h =
      outgoing-IsVouchedFor env source x_org_id fields request payload h

  authorised-IsVouchedFor :
      (env : Environ) (source x_org_id : Option Text) (raw : Bytes) (auth : Auth)
      (request : Outgoing Bytes) (payload : Fields)
      → authorised json_loads json_dumps repr hmac_sha256 env source x_org_id raw auth
        ≡ post request payload
      → (auth ≡ passed) × IsVouchedFor env request payload
  authorised-IsVouchedFor env source x_org_id raw (http status detail) request payload h =
      absurd (cc)
  authorised-IsVouchedFor env source x_org_id raw type_error request payload h = absurd (cc)
  authorised-IsVouchedFor env source x_org_id raw passed request payload h =
      elim (Bool-cases (is_empty (agent_base env))) [
        | inl unset ↦ absurd (cc)
        | inr set ↦ (
          refl,
          of_json-IsVouchedFor env source x_org_id (json_loads raw) request payload
              (sym (if_no _ _ _ set) ∙ h),
        )
      ]

  -- The edge server sends an incident to the agent only for a request that passed its
  -- authentication, and the organisation that the payload and the header name is the server's own
  -- unless callers may name the other one; the signature is that of the very body sent.
  pub prepare-IsVouchedFor :
      (env : Environ) (source x_org_id authorization x_middleware_token : Option Text) (raw : Bytes)
      (request : Outgoing Bytes) (payload : Fields)
      → prepare json_loads json_dumps repr hmac_sha256 env source x_org_id authorization
          x_middleware_token raw
        ≡ post request payload
      → (require_middleware_auth env authorization x_middleware_token ≡ passed)
        × IsVouchedFor env request payload
  unfolding prepare
  prepare-IsVouchedFor env source x_org_id authorization x_middleware_token raw request payload h =
      authorised-IsVouchedFor env source x_org_id raw _ request payload h
