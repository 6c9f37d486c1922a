-- ===== src/Middleware/Forward.antt =====
-- `forward_incident` of middleware/app.py: an incident goes on to the central agent, for an
-- organisation that the edge server vouches for. Reading JSON from the body
-- (`raw.decode() or "{}"`) and writing it, the repr of a value, the signature's digest and the request to the agent are parameters.
pub mod Vouched
use open_devops_agent.Prelude.{
  ℕ, Bool, true, false, ◌&&◌, ◌||◌, not, Option, none, some, List, [], ◌∷◌, ◌++◌, leb,
  if◌then◌else◌,
}
use open_devops_agent.Text.{Text, codes, strip, is_empty}
use open_devops_agent.Environ.{Environ, or_else}
use open_devops_agent.Api.Webhook.{given}
use open_devops_agent.Json.{
  Json, null, boolean, number, string, array, object, Items, nil, item, Fields, end, field, truthy,
  get_field, str_of, set_field, set_default, merge_without, or_value,
}
use open_devops_agent.Middleware.Settings.{
  Auth, passed, http, type_error, agent_base, default_host, forward_path, is_caller_org_id_allowed,
  org_id, require_middleware_auth, sign,
}

-- The fields of an incident, put in front of those that came without a type.
unfoldable pub with_type : Option Json → Fields → Fields
with_type (some _) payload = payload
with_type none payload =
    merge_without (codes "issue_type")
      (field (codes "type")
        (or_value (get_field (codes "issue_type") payload) (string (codes "server")))
        (field (codes "description")
          (or_value (get_field (codes "description") payload) (
            or_value (get_field (codes "summary") payload)
              (string (codes "Forwarded by middleware"))))
          (field (codes "raw_logs")
            (or_value (get_field (codes "raw_logs") payload)
              (or_else (get_field (codes "message") payload) null))
            (field (codes "labels") (or_value (get_field (codes "labels") payload) (object end))
              end))))
      payload

-- x_org_id, if something of it is left when stripped
abbrev pub header_org : Option Text → Option Text
header_org none = none
header_org (some x_org_id) = given (some (strip x_org_id))

-- payload["host"] = host
unfoldable pub with_host : Text → Fields → Fields
with_host host payload =
    if not (is_empty host) && not (truthy (or_else (get_field (codes "host") payload) null))
    then set_field (codes "host") (string host) payload
    else payload

abbrev pub mark_labels : Option Json → Fields → Fields
mark_labels (some (object labels)) payload =
    set_field (codes "labels")
      (object (set_default (codes "via_middleware") (string (codes "true")) labels)) payload
mark_labels _ payload = payload

-- payload.setdefault("labels", {}), and the mark in them
unfoldable pub with_labels : Fields → Fields
with_labels payload =
    let payload' = set_default (codes "labels") (object end) payload in
    mark_labels (get_field (codes "labels") payload') payload'

-- What the agent answers: its status and its body, or the failure to reach it.
pub data Sent : Type 0 where
  answered : ℕ → Json → Sent
  unreachable : Text → Sent

-- What the handler returns: the response of the agent, or an error with its detail.
pub data Forwarded : Type 0 where
  forwarded : ℕ → Json → Json → Forwarded
  refused : ℕ → Json → Forwarded
  raised : Forwarded

-- The request to the agent: address, body, the organisation's header and the signature's.
pub record Outgoing (Bytes : Type 0) : Type 0 where
  pub url : Text
  pub body : Bytes
  pub x_org_id : Text
  pub signature : Option Text

-- What the handler does before it sends: a request to send and the organisation it is for.
pub data Prepared (Bytes : Type 0) : Type 0 where
  post : Outgoing Bytes → Fields → Prepared Bytes
  reject : ℕ → Text → Prepared Bytes
  fail : Prepared Bytes

abbrev pub first_of : Option Text → Option Text → Option Text
first_of none other = other
first_of (some s) other = some s

abbrev pub trusted_org : Environ → Option Text → Text
trusted_org env none = org_id env
trusted_org env (some org) = if is_caller_org_id_allowed env (some org) then org else org_id env

-- The organisation that the incident is forwarded for.
unfoldable pub chosen_org : Environ → Option Text → Text
chosen_org env caller = trusted_org env (given caller)

module _ {Bytes : Type 0} (json_loads : Bytes → Option Json) (json_dumps : Json → Bytes)
    (repr : Json → Text) (hmac_sha256 : Text → Bytes → Text) where
  abbrev pub payload_org : Option Json → Option Text
  payload_org none = none
  payload_org (some v) = if truthy v then some (strip (str_of repr v)) else none

  unfoldable pub caller_org : Option Text → Fields → Option Text
  caller_org x_org_id payload =
      first_of (header_org x_org_id) (payload_org (get_field (codes "org_id") payload))

  unfoldable pub prepared_payload : Environ → Option Text → Option Text → Fields → Fields
  prepared_payload env source x_org_id fields =
      let typed = with_type (get_field (codes "type") fields) fields in
      let sourced =
        set_default (codes "source") (string (or_else (given source) (codes "middleware"))) typed in
      let owned =
        set_field (codes "org_id") (string (chosen_org env (caller_org x_org_id sourced)))
          sourced in
      with_labels (with_host (default_host env) owned)

  -- The headers take the organisation from the payload that is sent.
  abbrev pub request_for : Environ → Fields → Outgoing Bytes
  request_for env payload =
      let body = json_dumps (object payload) in
      record {
        url = agent_base env ++ forward_path env;
        body = body;
        x_org_id = str_of repr (or_else (get_field (codes "org_id") payload) null);
        signature = given (some (sign hmac_sha256 env body));
      }

  abbrev pub outgoing : Environ → Fields → Prepared Bytes
  outgoing env payload = post (request_for env payload) payload

  abbrev pub of_json : Environ → Option Text → Option Text → Option Json → Prepared Bytes
  of_json env source x_org_id none = reject 400 (codes "JSON body required")
  of_json env source x_org_id (some (object fields)) =
      outgoing env (prepared_payload env source x_org_id fields)
  of_json env source x_org_id (some _) = reject 400 (codes "JSON object required")

  abbrev pub authorised : Environ → Option Text → Option Text → Bytes → Auth → Prepared Bytes
  authorised env source x_org_id raw (http status detail) = reject status detail
  authorised env source x_org_id raw type_error = fail
  authorised env source x_org_id raw passed =
      if is_empty (agent_base env)
      then reject 503 (codes "AGENT_BASE_URL is not configured")
      else of_json env source x_org_id (json_loads raw)

  unfoldable pub prepare :
      Environ → Option Text → Option Text → Option Text → Option Text → Bytes → Prepared Bytes
  prepare env source x_org_id authorization x_middleware_token raw =
      authorised env source x_org_id raw
        (require_middleware_auth env authorization x_middleware_token)

  module _ (send : Outgoing Bytes → Sent) where
    abbrev respond : Fields → Sent → Forwarded
    respond payload (unreachable message) =
        refused 502 (string (codes "Failed to reach agent: " ++ message))
    respond payload (answered status body) =
        if leb 400 status
        then refused status body
        else forwarded status body (or_else (get_field (codes "org_id") payload) null)

    abbrev sent : Prepared Bytes → Forwarded
    sent (post request payload) = respond payload (send request)
    sent (reject status detail) = refused status (string detail)
    sent fail = raised

    unfoldable pub forward_incident :
        Environ → Option Text → Option Text → Option Text → Option Text → Bytes → Forwarded
    forward_incident env source x_org_id authorization x_middleware_token raw =
        sent (prepare env source x_org_id authorization x_middleware_token raw)
