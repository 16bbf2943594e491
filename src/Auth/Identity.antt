-- ===== src/Auth/Identity.antt =====
-- middleware/middleware.go: RequestID, AuditContext, resolveActor, resolveChannel and parseChannel.
use core_wallet.Prelude.{String, Option, none, some, str_eq, trim_space, upper_eq, if◌then◌else◌}
use core_wallet.Auth.{Request, Context}

-- `parseChannel`; the empty text is no channel.
unfoldable pub parse_channel : String → String
parse_channel s =
    let t = trim_space s in
    if upper_eq t "MOBILE"
    then "MOBILE"
    else if upper_eq t "OPSUI"
    then "OPSUI"
    else if upper_eq t "TREASURY"
    then "TREASURY"
    else if upper_eq t "PARTNER"
    then "PARTNER"
    else if upper_eq t "API"
    then "API"
    else ""

-- The first of two texts that is not empty.
abbrev pub or_else : String → String → String
or_else s t = if str_eq s "" then t else s

-- The value that a key holds, the empty text where it is unset.
unfoldable pub value_of : Option String → String
value_of none = ""
value_of (some s) = s

-- `resolveActor`.
unfoldable pub resolve_actor : Request → Context → String
unfolding value_of
resolve_actor req ctx = or_else (value_of ctx.gateway_actor) (
    or_else (value_of ctx.jwt_subject)
      (or_else (trim_space (req.header "X-Caller-Subject")) "anonymous"))

claimed_channel : Option String → String
unfolding parse_channel
claimed_channel none = ""
claimed_channel (some s) = if str_eq s "" then "" else parse_channel s

-- `resolveChannel`.
unfoldable pub resolve_channel : Request → Context → String
unfolding claimed_channel
resolve_channel req ctx =
    or_else (claimed_channel ctx.jwt_channel)
      (or_else (parse_channel (req.header "X-Channel")) "API")

-- `RequestID`; `fresh` is `uuid.NewString()`.
unfoldable pub request_id : String → Request → Context → Context
request_id fresh req ctx = record ctx {
  request_id = or_else (trim_space (req.header "X-Request-Id")) fresh;
}

-- `AuditContext`.
unfoldable pub audit_context : Request → Context → Context
unfolding resolve_actor resolve_channel
audit_context req ctx = record ctx {
  audit = some (record {
    actor = resolve_actor req ctx;
    channel = resolve_channel req ctx;
    request_id = ctx.request_id;
    trace_id = req.trace_id;
    trace_parent = req.trace_parent;
    ip_address = req.client_ip;
    user_agent = req.user_agent;
  });
}
